-- ===== src/Memory/Copy.antt =====
-- What a copy between segments changes.
use pypy_stmgc.Base.{ℕ, zero, suc, ◌+◌, ◌≡◌, refl, ◌∙◌, ◌&&◌, ltb, leb, ◌==◌, if◌then◌else◌, arith}
use pypy_stmgc.Memory.{Mem, backing, load, store, memcpy}

store-by_segment : (m : Mem) (seg a v : ℕ) → (store m seg a v).by_segment ≡ m.by_segment
unfolding store
store-by_segment m seg a v = refl

store-file :
    (m : Mem) (seg a v k b : ℕ)
    → (store m seg a v).file k b
      ≡ (if b == a && k == backing m.by_segment seg a then v else m.file k b)
unfolding store
store-file m seg a v k b = ground arith

pub load_lem : (m : Mem) (seg a : ℕ) → load m seg a ≡ m.file (backing m.by_segment seg a) a
unfolding load
load_lem m seg a = refl

pub memcpy-by_segment :
    (m : Mem) (dst src start n : ℕ) → (memcpy m dst src start n).by_segment ≡ m.by_segment
unfolding memcpy
memcpy-by_segment m dst src start zero = refl
memcpy-by_segment m dst src start (suc n) =
    memcpy-by_segment (store m dst start (load m src start)) dst src (start + 1) n
    ∙ store-by_segment m dst start (load m src start)

pub memcpy-total_allocated :
    (m : Mem) (dst src start n : ℕ) → (memcpy m dst src start n).total_allocated ≡ m.total_allocated
unfolding memcpy store
memcpy-total_allocated m dst src start zero = refl
memcpy-total_allocated m dst src start (suc n) =
    memcpy-total_allocated (store m dst start (load m src start)) dst src (start + 1) n

-- The bytes of the range that back the target's are the source's, and all others stay.
pub memcpy-file :
    (m : Mem) (dst src start n k a : ℕ)
    → (memcpy m dst src start n).file k a ≡ (
        if leb start a && ltb a (start + n) && k == backing m.by_segment dst a
        then m.file (backing m.by_segment src a) a
        else m.file k a)
unfolding memcpy
memcpy-file m dst src start zero k a = ground arith
memcpy-file m dst src start (suc n) k a =
    memcpy-file (store m dst start v) dst src (start + 1) n k a
    ∙ rw (store-by_segment m dst start v) (
        ground (
          arith,
          store-file m dst start v k a,
          store-file m dst start v (backing m.by_segment src a) a,
          load_lem m src start,
        ))
  where
    v : ℕ
    v = load m src start

-- What the segments read after a copy: those that share the target's place read the source.
pub load-memcpy :
    (m : Mem) (dst src start n t a : ℕ)
    → load (memcpy m dst src start n) t a ≡ (
        if leb start a
          && ltb a (start + n)
          && backing m.by_segment t a == backing m.by_segment dst a
        then load m src a
        else load m t a)
unfolding load
load-memcpy m dst src start n t a =
    rw (memcpy-by_segment m dst src start n)
      (memcpy-file m dst src start n (backing m.by_segment t a) a)

pub load-store :
    (m : Mem) (seg a v t b : ℕ)
    → load (store m seg a v) t b
      ≡ (if b == a && backing m.by_segment t b == backing m.by_segment seg a then v else load m t b)
unfolding load store
load-store m seg a v t b = ground arith
