-- ===== src/PageTable/Lookup.antt =====
-- va-to-pa.c and issue_queries.c: every lookup closes its file, and what it makes of an entry agrees
-- with the walk over the page tables.
use snippet.Base.{
  ℕ, ◌+◌, ◌*◌, ◌/◌, ◌%◌, ◌^◌, ◌<◌, not, true, false, ◌≡◌, refl, ◌∙◌, Option, List, ◌∷◌, length,
  ◌==◌, ==_iff, if◌then◌else◌, if-rule, case_option-rule, ℤ, is_negative, arith,
}
use snippet.Posix.{Event, Trace, open_fds, remove, remove_head}
use snippet.PageTable.Walker.{PageTableQuery, physical}
use snippet.PageTable.Pagemap.{
  PagemapFile, decode_entry, is_swapped, page_frame, read_entry, translate_address, lookup_pagemap,
  Device, query_of, query_va, enomem,
}

module _ {A : Type 0} (fds : List ℕ) where
  abbrev Leaves : Trace × A → Type 0
  Leaves r = open_fds r.0 ≡ fds

read_entry-Leaves :
    (file : PagemapFile) (page_size fd pa va : ℕ) (t : Trace)
    → Leaves (remove fd (open_fds t)) (read_entry file page_size fd pa va t)
unfolding read_entry open_fds
read_entry-Leaves file page_size fd pa va t =
    let offset = va / page_size * 8 in
    let fds = remove fd (open_fds t) in
    case_option-rule (Leaves fds) (file.lseek t offset) (λ failed. refl)
      (λ real moved.
        if-rule (Leaves fds) (not (real == offset)) (λ elsewhere. refl)
          (λ there.
            case_option-rule (Leaves fds) (file.read t) (λ failed. refl)
              (λ bytes got.
                if-rule (Leaves fds) (not (length bytes == 8)) (λ short. refl) (λ full. refl))))

-- Whatever the system answers, `translate_address`, `lookup_pagemap` and `query_va` end with the
-- descriptors that were open before them.
pub lookups-open_fds :
    (file : PagemapFile) (device : Device) (page_size cached pa va : ℕ) (t : Trace)
    → (open_fds (translate_address file page_size pa va t).0 ≡ open_fds t)
      × (open_fds (lookup_pagemap file page_size cached pa va t).1.0 ≡ open_fds t)
      × (open_fds (query_va device va t).0 ≡ open_fds t)
unfolding translate_address lookup_pagemap query_va open_fds
lookups-open_fds file device page_size cached pa va t =
    let fds = open_fds t in
    let size = if cached == 0 then page_size else cached in
    (
      case_option-rule (Leaves fds) (file.open_path t) (λ failed. refl)
          (λ fd made.
            read_entry-Leaves file page_size fd pa va (Event.opened fd ∷ t) ∙ remove_head fd fds),
      case_option-rule (λ (r : ℕ × (Trace × (ℕ × ℕ))). open_fds r.1.0 ≡ fds) (file.open_path t)
          (λ failed. refl)
          (λ fd made.
            read_entry-Leaves file size fd pa va (Event.opened fd ∷ t) ∙ remove_head fd fds),
      case_option-rule (λ (r : Trace × Option PageTableQuery × ℤ). open_fds r.0 ≡ fds)
          (device.open_path t) (λ failed. refl)
          (λ fd made.
            let answer = device.ioctl (Event.opened fd ∷ t) (query_of va) in
            if-rule (λ (r : Trace × Option PageTableQuery × ℤ). open_fds r.0 ≡ fds)
              (is_negative answer.0) (λ failed. remove_head fd fds)
              (λ answered. remove_head fd fds)),
    )

-- An entry of the page map: the frame, the bits 55 to 61, the bit of a swapped page and that of a
-- present one.
abbrev pub pagemap_entry : (frame flags swapped present : ℕ) → ℕ
pagemap_entry frame flags swapped present =
    frame + flags * 2 ^ 55 + swapped * 2 ^ 62 + present * 2 ^ 63

-- For a page that is not swapped, present or not and with whatever flags, the page map gives the address that the walk
-- gives for the same frame in a PTE; for one that is swapped, an error and the address 0.
pub decode_entry-agrees :
    (frame flags present va : ℕ)
    → frame < 2 ^ 55
    → flags < 2 ^ 7
    → present < 2
    → (decode_entry (2 ^ 12) (pagemap_entry frame flags 0 present) va
        ≡ (0, physical frame (2 ^ 12) va))
      × (decode_entry (2 ^ 12) (pagemap_entry frame flags 1 present) va ≡ (enomem, 0))
unfolding decode_entry
decode_entry-agrees frame flags present va a b c =
    let bit : pagemap_entry frame flags 0 present / 2 ^ 62 % 2 ≡ 0 = omega arith in
    let clear : is_swapped (pagemap_entry frame flags 0 present) ≡ false = rw (bit) refl in
    let set : is_swapped (pagemap_entry frame flags 1 present) ≡ true =
      (==_iff _ _).1 (omega arith) in
    let kept : page_frame (pagemap_entry frame flags 0 present) ≡ frame = omega arith in
    (rw (clear, kept) refl, rw (set) refl)
