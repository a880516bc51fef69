-- ===== src/PageTable/Pagemap.antt =====
-- linux-c/va-to-pa.c: `translate_address`, and kernel-module/mm/page_table/issue_queries.c:
-- `lookup_pagemap` and `query_va`. Messages to the terminal are left out.
use snippet.Base.{
  ℕ, ◌+◌, ◌*◌, ◌/◌, ◌%◌, ◌^◌, Bool, not, Option, none, some, List, ◌∷◌, length, ◌==◌, if◌then◌else◌,
  case_option, ℤ, pos, neg, is_negative,
}
use snippet.Posix.{Event, Trace}
use snippet.InetIo.{from_le}
use snippet.PageTable.Walker.{PageTableQuery}

abbrev pub eio : ℕ
eio = 5

abbrev pub enomem : ℕ
enomem = 12

-- The answers of the system: a descriptor, an offset and the bytes read, or an error, which
-- `errno` names.
pub record PagemapFile : Type 0 where
  pub open_path : Trace → Option ℕ
  pub lseek : Trace → ℕ → Option ℕ
  pub read : Trace → Option (List ℕ)
  pub errno : Trace → ℕ

-- `entry & PM_SWAP`
abbrev pub is_swapped : ℕ → Bool
is_swapped entry = entry / 2 ^ 62 % 2 == 1

abbrev pub page_frame : ℕ → ℕ
page_frame entry = entry % 2 ^ 55

-- The value returned, and `*pa`: from the decoding of the entry to the end.
unfoldable pub decode_entry : ℕ → ℕ → ℕ → ℕ × ℕ
decode_entry page_size entry va =
    if is_swapped entry
    then (enomem, 0)
    else (0, (page_frame entry * page_size + va % page_size) % 2 ^ 64)

module _ (file : PagemapFile) (page_size : ℕ) where
  -- From `lseek` to the `close` behind the read. `pa` is what `*pa` holds.
  unfoldable pub read_entry : ℕ → ℕ → ℕ → Trace → Trace × (ℕ × ℕ)
  unfolding decode_entry
  read_entry fd pa va t =
      let offset = va / page_size * 8 in
      let shut = Event.closed fd ∷ t in
      case_option (file.lseek t offset) (shut, (file.errno t, pa))
        λ real_offset.
          if not (real_offset == offset)
          then (shut, (eio, pa))
          else case_option (file.read t) (shut, (file.errno t, pa))
              λ bytes.
                if not (length bytes == 8)
                then (Event.closed fd ∷ Event.received fd bytes ∷ t, (eio, pa))
                else (
                  Event.closed fd ∷ Event.received fd bytes ∷ t,
                  decode_entry page_size (from_le bytes) va,
                )

  -- The trace, and the value returned with `*pa`.
  unfoldable pub translate_address : ℕ → ℕ → Trace → Trace × (ℕ × ℕ)
  unfolding read_entry
  translate_address pa va t =
      case_option (file.open_path t) (t, (file.errno t, pa))
        λ fd. read_entry fd pa va (Event.opened fd ∷ t)

-- The static `page_size` is asked for once, by `sysconf`; the first component is what it holds.
unfoldable pub lookup_pagemap :
    PagemapFile → (sysconf_page_size page_size pa va : ℕ) → Trace → ℕ × (Trace × (ℕ × ℕ))
unfolding read_entry
lookup_pagemap file sysconf_page_size page_size pa va t =
    let size = if page_size == 0 then sysconf_page_size else page_size in
    case_option (file.open_path t) (size, (t, (file.errno t, pa)))
      λ fd. (size, read_entry file size fd pa va (Event.opened fd ∷ t))

-- The answers to `query_va`: the descriptor of the device, and the value of the `ioctl` with the
-- query that it has filled. The check against the page map, which is printed, is left out.
pub record Device : Type 0 where
  pub open_path : Trace → Option ℕ
  pub ioctl : Trace → PageTableQuery → ℤ × PageTableQuery

abbrev pub query_of : ℕ → PageTableQuery
query_of va = record {
  pid = 0;
  va = va;
  num_levels = 0;
  pgd_table_kla = 0;
  pgd_entry_kla = 0;
  p4d_entry_kla = 0;
  pud_entry_kla = 0;
  pmd_entry_kla = 0;
  pte_entry_kla = 0;
  pgd_entry = 0;
  p4d_entry = 0;
  pud_entry = 0;
  pmd_entry = 0;
  pte_entry = 0;
  pa = 0;
  kla_start = 0;
}

-- The query is what `print_page_table_query` is given, if it is called.
unfoldable pub query_va : Device → ℕ → Trace → Trace × Option PageTableQuery × ℤ
query_va device va t =
    case_option (device.open_path t) (t, none, neg 1)
      λ fd.
        let t₁ = Event.opened fd ∷ t in
        let (ret, query) = device.ioctl t₁ (query_of va) in
        if is_negative ret
        then (Event.closed fd ∷ t₁, none, ret)
        else (Event.closed fd ∷ t₁, some query, pos 0)
