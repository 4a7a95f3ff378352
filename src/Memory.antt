-- ===== src/Memory.antt =====
-- c7/stm/pages.h, c7/stm/pages.c and the copying loops of c7/stm/core.c: each page of objects has a
-- shared copy, kept at segment 0, and a private copy for each segment whose bit is set.
pub mod Copy
pub mod Fragment
pub mod Privatize
pub mod Synchronize
use pypy_stmgc.Base.{
  ℕ, zero, suc, ◌+◌, ◌-◌, ◌*◌, ◌/◌, ◌%◌, ◌^◌, ◌≤◌, ◌<◌, ◌≡◌, Bool, true, false, ◌&&◌, ◌||◌, ltb,
  leb, ◌==◌, if◌then◌else◌, update, w64,
}

-- `NB_SEGMENTS`; segment 0 is the shared one.
abbrev pub nb_segments : ℕ
nb_segments = 4

-- `file k a` is what the memory file holds at address `a` of segment `k`, `by_segment p k` is the
-- bit of segment `k` in `pages_privatized[p]`.
pub record Mem : Type 0 where
  pub file : ℕ → ℕ → ℕ
  pub by_segment : ℕ → ℕ → Bool
  pub total_allocated : ℕ
  pub total_allocated_bound : ℕ
  pub major_collection_requested : Bool

abbrev pub is_private_page : Mem → ℕ → ℕ → Bool
is_private_page m segnum pagenum = m.by_segment pagenum segnum

-- The segment whose part of the file backs address `a` of segment `seg`: what the calls of
-- `remap_file_pages` set up.
unfoldable pub backing : (ℕ → ℕ → Bool) → ℕ → ℕ → ℕ
backing bits seg a = if seg == 0 then 0 else if bits (a / 4096) seg then seg else 0

-- A read and a write through the address space of a segment.
unfoldable pub load : Mem → ℕ → ℕ → ℕ
load m seg a = m.file (backing m.by_segment seg a) a

unfoldable pub store : Mem → ℕ → ℕ → ℕ → Mem
store m seg a v =
    let k = backing m.by_segment seg a in
    record m { file = update m.file k (update (m.file k) a v) }

-- `memcpy` of `n` bytes from address `start` of segment `src` to the same address of `dst`.
unfoldable pub memcpy : Mem → ℕ → ℕ → ℕ → ℕ → Mem
memcpy m dst src start zero = m
memcpy m dst src start (suc n) = memcpy (store m dst start (load m src start)) dst src (start + 1) n

unfoldable pub pagecopy : Mem → ℕ → ℕ → ℕ → Mem
pagecopy m dst src pagenum = memcpy m dst src (pagenum * 4096) 4096

-- Adds or, as a number below the modulus, subtracts.
unfoldable pub increment_total_allocated : Mem → ℕ → Mem
increment_total_allocated m amount =
    let ta = w64 (m.total_allocated + amount) in
    record m {
      total_allocated = ta;
      major_collection_requested = leb m.total_allocated_bound ta || m.major_collection_requested;
    }

-- The bit of `me` in `pages_privatized[pagenum]` set: the page is backed by its own place.
unfoldable pub set_bit : Mem → ℕ → ℕ → Mem
set_bit m me pagenum = record m {
  by_segment = update m.by_segment pagenum (update (m.by_segment pagenum) me true);
}

-- The bits of `pagenum` cleared: every segment sees the shared page.
unfoldable pub clear_bits : Mem → ℕ → Mem
clear_bits m pagenum = record m { by_segment = update m.by_segment pagenum (λ _. false) }

-- `me` is `STM_SEGMENT->segment_num`. The locks taken around the change are left out: it is one
-- step of the model.
unfoldable pub page_privatize : Mem → ℕ → ℕ → Mem
page_privatize m me pagenum =
    if is_private_page m me pagenum
    then m
    else pagecopy (increment_total_allocated (set_bit m me pagenum) 4096) me 0 pagenum

-- How many of the segments 1, …, n have the bit set.
unfoldable pub count_bits : (ℕ → Bool) → ℕ → ℕ
count_bits bits zero = 0
count_bits bits (suc n) = count_bits bits n + (if bits (suc n) then 1 else 0)

unfoldable pub page_reshare : Mem → ℕ → Mem
page_reshare m pagenum =
    let freed = 4096 * count_bits (m.by_segment pagenum) nb_segments in
    increment_total_allocated (clear_bits m pagenum) (w64 (2 ^ 64 - freed))

unfoldable pub page_check_and_reshare : Mem → ℕ → Mem
page_check_and_reshare m pagenum =
    if count_bits (m.by_segment pagenum) nb_segments == 0 then m else page_reshare m pagenum

-- How many bytes of the object up to `end` lie on `page`, from `start` on.
unfoldable pub fragment_size : ℕ → ℕ → ℕ → ℕ → ℕ
fragment_size page last_page start end =
    if page == last_page then end - start else 4096 - start % 4096

-- The fragment goes from `me` to segment `i`, if that is another one with its own copy of the page.
unfoldable pub copy_to : Mem → ℕ → ℕ → ℕ → ℕ → ℕ → Mem
copy_to m me page start size i =
    if i == me then m else if is_private_page m i page then memcpy m i me start size else m

-- The inner loop, at segment `i` with `n` of them left.
unfoldable pub copy_to_others : Mem → ℕ → ℕ → ℕ → ℕ → ℕ → ℕ → Mem
copy_to_others m me page start size i zero = m
copy_to_others m me page start size i (suc n) =
    copy_to_others (copy_to m me page start size i) me page start size (i + 1) n

-- The copy into the shared page, if the page of `me` is another one.
unfoldable pub copy_to_shared : Mem → ℕ → ℕ → ℕ → ℕ → Mem
copy_to_shared m me page start size =
    if is_private_page m me page then memcpy m 0 me start size else m

-- One turn of the loop of `_page_wise_synchronize_object_now`. `pagecopy` copies as `memcpy` does.
unfoldable pub synchronize_fragment : Mem → ℕ → ℕ → ℕ → ℕ → Mem
synchronize_fragment m me page start size =
    copy_to_others (copy_to_shared m me page start size) me page start size 1 nb_segments

-- The loop, with `n` pages left.
unfoldable pub synchronize_pages : Mem → ℕ → ℕ → ℕ → ℕ → ℕ → ℕ → Mem
synchronize_pages m me page last_page start end zero = m
synchronize_pages m me page last_page start end (suc n) =
    synchronize_pages
      (synchronize_fragment m me page start (fragment_size page last_page start end)) me (page + 1)
      last_page ((start + 4096) / 4096 * 4096) end n

-- `obj_size` is what `stmcb_size_rounded_up` answers.
unfoldable pub page_wise_synchronize_object_now : Mem → ℕ → ℕ → ℕ → Mem
page_wise_synchronize_object_now m me obj obj_size =
    let end = obj + obj_size in
    let last_page = (end - 1) / 4096 in
    synchronize_pages m me (obj / 4096) last_page obj end (last_page + 1 - obj / 4096)

-- The loop of `copy_object_to_shared`, with `n` pages left.
unfoldable pub copy_pages_to_shared : Mem → ℕ → ℕ → ℕ → ℕ → ℕ → ℕ → Mem
copy_pages_to_shared m source page last_page start end zero = m
copy_pages_to_shared m source page last_page start end (suc n) =
    copy_pages_to_shared
      (copy_to_shared m source page start (fragment_size page last_page start end)) source
      (page + 1) last_page ((start + 4096) / 4096 * 4096) end n

unfoldable pub copy_object_to_shared : Mem → ℕ → ℕ → ℕ → Mem
copy_object_to_shared m source obj obj_size =
    let end = obj + obj_size in
    let last_page = (end - 1) / 4096 in
    copy_pages_to_shared m source (obj / 4096) last_page obj end (last_page + 1 - obj / 4096)
