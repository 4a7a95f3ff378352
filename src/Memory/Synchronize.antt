-- ===== src/Memory/Synchronize.antt =====
-- c7/stm/core.c: the loops that carry an object from one segment to all others.
use Prim.Native.Nat.{max}
use pypy_stmgc.Base.{
  ℕ, zero, suc, ◌+◌, ◌-◌, ◌*◌, ◌/◌, ◌≤◌, ◌<◌, ◌≡◌, ◌≢◌, refl, ◌∙◌, Bool, ◌&&◌, ◌||◌, ◌⊎◌, ltb, leb,
  ◌==◌, if◌then◌else◌, arith,
}
use pypy_stmgc.Memory.{
  Mem, nb_segments, backing, load, synchronize_fragment, fragment_size, synchronize_pages,
  page_wise_synchronize_object_now,
}
use pypy_stmgc.Memory.Fragment.{backing_cases, backing_private, fragment-by_segment, fragment-file}

fragment_on_page :
    (page last start end a : ℕ)
    → page ≤ last
    → last ≡ (end - 1) / 4096
    → start / 4096 ≡ page
    → start ≤ a
    → a < start + fragment_size page last start end
    → a / 4096 ≡ page
unfolding fragment_size
fragment_on_page page last start end a le l s p q = ground arith

-- A fragment ends where the object does, or where its page does.
fragment_extent :
    (page last start end : ℕ)
    → ((page ≡ last) × (start + fragment_size page last start end ≡ max start end))
      ⊎ ((page ≢ last) × (start + fragment_size page last start end ≡ (start + 4096) / 4096 * 4096))
unfolding fragment_size
fragment_extent page last start end = ground arith

pages-by_segment :
    (m : Mem) (me page last start end n : ℕ)
    → (synchronize_pages m me page last start end n).by_segment ≡ m.by_segment
unfolding synchronize_pages
pages-by_segment m me page last start end zero = refl
pages-by_segment m me page last start end (suc n) =
    pages-by_segment (synchronize_fragment m me page start (fragment_size page last start end)) me
      (page + 1) last ((start + 4096) / 4096 * 4096) end n
    ∙ fragment-by_segment me page start (fragment_size page last start end) m

backing-le : (bits : ℕ → ℕ → Bool) (seg a n : ℕ) → seg ≤ n → backing bits seg a ≤ n
unfolding backing
backing-le bits seg a n le = ground arith

pages-file :
    (n : ℕ) (m : Mem) (me page last start end k a : ℕ)
    → me ≤ nb_segments
    → k ≤ nb_segments
    → page + n ≡ last + 1
    → last ≡ (end - 1) / 4096
    → 0 < end
    → start / 4096 ≡ page
    → (synchronize_pages m me page last start end n).file k a ≡ (
        if leb start a && ltb a end && (k == 0 || m.by_segment (a / 4096) k)
        then m.file (backing m.by_segment me a) a
        else m.file k a)
unfolding synchronize_pages
pages-file zero m me page last start end k a le_me le_k count l pos s = ground arith
pages-file (suc n) m me page last start end k a le_me le_k count l pos s =
    pages-file n m' me (page + 1) last ((start + 4096) / 4096 * 4096) end k a le_me le_k
      (omega arith) l pos (omega arith)
    ∙ rw (fragment-by_segment me page start size m) (
        ground (
          arith,
          fragment-file me page start size on_page m k a le_k,
          fragment-file me page start size on_page m (backing m.by_segment me a) a
              (backing-le m.by_segment me a nb_segments le_me),
          on_page a,
          extent,
        ))
  where
    size : ℕ
    size = fragment_size page last start end

    m' : Mem
    m' = synchronize_fragment m me page start size

    on_page : (b : ℕ) → start ≤ b → b < start + size → b / 4096 ≡ page
    on_page b p q = fragment_on_page page last start end b (omega arith) l s p q

    extent :
        ((page ≡ last) × (start + size ≡ max start end))
        ⊎ ((page ≢ last) × (start + size ≡ (start + 4096) / 4096 * 4096))
    extent = fragment_extent page last start end

-- For an object that has a size, after `_page_wise_synchronize_object_now` by segment `me` every
-- segment, the shared one included, reads at each byte of the object what `me` read there before,
-- and at all other bytes what it read itself.
pub load-page_wise :
    (m : Mem) (me obj obj_size t a : ℕ)
    → me ≤ nb_segments
    → t ≤ nb_segments
    → 0 < obj_size
    → load (page_wise_synchronize_object_now m me obj obj_size) t a
      ≡ (if leb obj a && ltb a (obj + obj_size) then load m me a else load m t a)
unfolding page_wise_synchronize_object_now load
load-page_wise m me obj obj_size t a le_me le_t pos =
    rw (pages-by_segment m me page last obj end n) (
      ground (
        arith,
        pages-file n m me page last obj end (backing m.by_segment t a) a le_me
            (backing-le m.by_segment t a nb_segments le_t) (omega arith) refl (omega arith) refl,
        backing_cases m.by_segment t a,
        backing_private m.by_segment t a,
      ))
  where
    end : ℕ
    end = obj + obj_size

    page : ℕ
    page = obj / 4096

    last : ℕ
    last = (end - 1) / 4096

    n : ℕ
    n = last + 1 - page
