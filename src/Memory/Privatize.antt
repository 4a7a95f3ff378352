-- ===== src/Memory/Privatize.antt =====
-- c7/stm/pages.c: giving a segment its own copy of a page, and taking the copies back.
use mathlib.Core.Path.{fun_ext}
use pypy_stmgc.Base.{
  ℕ, zero, suc, ◌+◌, ◌*◌, ◌/◌, ◌^◌, ◌≤◌, ◌<◌, ◌≡◌, refl, ◌∙◌, ap, Bool, true, false, ◌&&◌, ◌||◌,
  ◌==◌, if◌then◌else◌, update, arith, Bool-cases, inl, inr, w64,
}
use pypy_stmgc.Memory.{
  Mem, nb_segments, is_private_page, backing, load, store, pagecopy, set_bit, clear_bits,
  increment_total_allocated, page_privatize, page_reshare, page_check_and_reshare, count_bits,
}
use pypy_stmgc.Memory.Copy.{memcpy-by_segment, memcpy-file, memcpy-total_allocated}

pagecopy-by_segment :
    (m : Mem) (dst src page : ℕ) → (pagecopy m dst src page).by_segment ≡ m.by_segment
unfolding pagecopy
pagecopy-by_segment m dst src page = memcpy-by_segment m dst src (page * 4096) 4096

pagecopy-file :
    (m : Mem) (dst src page k a : ℕ)
    → (pagecopy m dst src page).file k a ≡ (
        if a / 4096 == page && k == backing m.by_segment dst a
        then m.file (backing m.by_segment src a) a
        else m.file k a)
unfolding pagecopy
pagecopy-file m dst src page k a = ground (arith, memcpy-file m dst src (page * 4096) 4096 k a)

module _ (m : Mem) (me page : ℕ) where
  marked : Mem
  marked = increment_total_allocated (set_bit m me page) 4096

  marked-by_segment :
      (p t : ℕ) → marked.by_segment p t ≡ (if p == page && t == me then true else m.by_segment p t)
  unfolding marked increment_total_allocated set_bit
  marked-by_segment p t = ground arith

  copied : Mem
  copied = pagecopy marked me 0 page

  copied-by_segment :
      (p t : ℕ) → copied.by_segment p t ≡ (if p == page && t == me then true else m.by_segment p t)
  unfolding copied
  copied-by_segment p t = rw (pagecopy-by_segment marked me 0 page) (marked-by_segment p t)

  copied-file :
      (k a : ℕ)
      → copied.file k a ≡ (
          if a / 4096 == page && k == backing marked.by_segment me a
          then m.file (backing marked.by_segment 0 a) a
          else m.file k a)
  unfolding copied marked set_bit increment_total_allocated
  copied-file k a = pagecopy-file marked me 0 page k a

  load-copied : (t a : ℕ) → 0 < me → m.by_segment page me ≡ false → load copied t a ≡ load m t a
  unfolding load backing
  load-copied t a pos new = ground (
    arith,
    copied-file (backing copied.by_segment t a) a,
    copied-by_segment (a / 4096) t,
    marked-by_segment (a / 4096) me,
  )

-- For a segment that is not the shared one, privatizing a page makes the page private to it, and
-- changes nothing that any segment reads.
pub page_privatize_lem :
    (m : Mem) (me page t a : ℕ)
    → 0 < me
    → (is_private_page (page_privatize m me page) me page ≡ true)
      × (load (page_privatize m me page) t a ≡ load m t a)
unfolding page_privatize marked copied
page_privatize_lem m me page t a pos = elim (Bool-cases (is_private_page m me page)) [
  | inl old ↦ rw old (old, refl)
  | inr new ↦
      rw (new, page_privatize)
        (ground (arith, copied-by_segment m me page page me), load-copied m me page t a pos new)
]

-- The bits after it.
pub page_privatize-by_segment :
    (m : Mem) (me page p t : ℕ)
    → is_private_page (page_privatize m me page) t p
      ≡ ((p == page && t == me) || is_private_page m t p)
unfolding page_privatize marked copied
page_privatize-by_segment m me page p t = elim (Bool-cases (is_private_page m me page)) [
  | inl old ↦ rw (old, page_privatize) (ground arith)
  | inr new ↦ rw (new, page_privatize) (ground (arith, copied-by_segment m me page p t))
]

pub store_isolated :
    (m : Mem) (me a v t b : ℕ)
    → 0 < me
    → is_private_page m me (a / 4096) ≡ true
    → load (store m me a v) t b ≡ (if t == me && b == a then v else load m t b)
unfolding load store backing
store_isolated m me a v t b pos private = ground arith

count_bits-le : (bits : ℕ → Bool) (n : ℕ) → count_bits bits n ≤ n
unfolding count_bits
count_bits-le bits zero = omega arith
count_bits-le bits (suc n) = ground (arith, count_bits-le bits n)

count_bits-zero : (n : ℕ) → count_bits (λ _. false) n ≡ 0
unfolding count_bits
count_bits-zero zero = refl
count_bits-zero (suc n) = omega (arith, count_bits-zero n)

count_bits-set_above :
    (bits : ℕ → Bool) (n me : ℕ) → n < me → count_bits (update bits me true) n ≡ count_bits bits n
unfolding count_bits
count_bits-set_above bits zero me h = refl
count_bits-set_above bits (suc n) me h = ground (arith, count_bits-set_above bits n me)

count_bits-set :
    (bits : ℕ → Bool) (n me : ℕ)
    → 0 < me
    → me ≤ n
    → bits me ≡ false
    → count_bits (update bits me true) n ≡ count_bits bits n + 1
unfolding count_bits
count_bits-set bits zero me pos le h = absurd (omega arith)
count_bits-set bits (suc n) me pos le h =
    ground (arith, count_bits-set bits n me, count_bits-set_above bits n me)

-- What a page costs: 4096 bytes for each private copy.
unfoldable pub cost : Mem → ℕ → ℕ
cost m page = 4096 * count_bits (m.by_segment page) nb_segments

copied-total :
    (m : Mem) (me page : ℕ) → (copied m me page).total_allocated ≡ w64 (m.total_allocated + 4096)
unfolding copied marked pagecopy increment_total_allocated set_bit
copied-total m me page = memcpy-total_allocated (marked m me page) me 0 (page * 4096) 4096

copied-cost :
    (m : Mem) (me page : ℕ)
    → 0 < me
    → me ≤ nb_segments
    → m.by_segment page me ≡ false
    → count_bits ((copied m me page).by_segment page) nb_segments
      ≡ count_bits (m.by_segment page) nb_segments + 1
copied-cost m me page pos le new =
    ap (λ bits. count_bits bits nb_segments)
      (fun_ext λ t. ground (arith, copied-by_segment m me page page t))
    ∙ count_bits-set (m.by_segment page) nb_segments me pos le new

-- While the count of allocated bytes covers the private copies of the page and is not near the
-- wrap-around, privatizing the page and resharing it if it has a private copy each change the count
-- by 4096 for each private copy that comes or goes.
pub accounting_lem :
    (m : Mem) (me page : ℕ)
    → 0 < me
    → me ≤ nb_segments
    → m.total_allocated + 4096 < 2 ^ 64
    → cost m page ≤ m.total_allocated
    → ((page_privatize m me page).total_allocated + cost m page
        ≡ m.total_allocated + cost (page_privatize m me page) page)
      × ((page_check_and_reshare m page).total_allocated + cost m page
          ≡ m.total_allocated + cost (page_check_and_reshare m page) page)
unfolding cost page_privatize marked copied page_check_and_reshare page_reshare clear_bits
    increment_total_allocated
accounting_lem m me page pos le small covered = (
  elim (Bool-cases (is_private_page m me page)) [
    | inl old ↦ rw old refl
    | inr new ↦
        rw (new, page_privatize)
          (ground (arith, copied-total m me page, copied-cost m me page pos le new))
  ],
  ground (arith, count_bits-le (m.by_segment page) nb_segments, count_bits-zero nb_segments),
)
