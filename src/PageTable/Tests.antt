-- ===== src/PageTable/Tests.antt =====
-- Queries of kernel-module/mm/page_table, and the theorems at concrete inputs.
use snippet.Base.{◌+◌, ◌*◌, ◌^◌, ◌≡◌, refl, true, false, [], some, ◌==◌, if◌then◌else◌, pos}
use snippet.InetIo.{le_bytes, from_le}
use snippet.PageTable.Walker.{Machine}
use snippet.PageTable.Request.{Held, UserSpace, walker_ioctl_unlocked}
use snippet.PageTable.Pagemap.{PagemapFile, Device, query_of, translate_address}
use snippet.PageTable.Serving.{Holds, Serves, walker_ioctl_unlocked-Serves}
use snippet.PageTable.Lookup.{pagemap_entry}

-- The table at 100 leads to a PMD at 103 that maps 2 MB at frame 512.
abbrev machine : Machine
machine = record {
  has_pid = λ pid. true;
  has_task = λ pid. true;
  mm_of = λ pid. some 100;
  current = 1;
  read_once = λ address. if address == 103 then 512 else 7;
  pgd_offset = λ mm va. mm;
  p4d_offset = λ entry va. entry + 1;
  pud_offset = λ entry va. entry + 1;
  pmd_offset = λ entry va. entry + 1;
  pte_offset = λ entry va. entry + 1;
  pgd_absent = λ entry. false;
  p4d_absent = λ entry. false;
  pud_absent = λ entry. false;
  pmd_absent = λ entry. false;
  pte_none = λ entry. false;
  pud_leaf = λ entry. false;
  pmd_leaf = λ entry. entry == 512;
  pud_pfn = λ entry. entry;
  pmd_pfn = λ entry. entry;
  pte_pfn = λ entry. entry;
  page_offset = 0;
}

abbrev nothing_held : Held
nothing_held = record { pids = 0; tasks = 0; mms = 0; mmap_read_locks = 0 }

abbrev user : UserSpace
user = record { query = query_of 0x345678; readable = true; writable = true; torn = λ query. query }

walker_ioctl_unlocked-Serves_example :
    (Serves machine user nothing_held (walker_ioctl_unlocked machine 9 9 user nothing_held))
    × (Holds nothing_held 0 (walker_ioctl_unlocked machine 9 9 user nothing_held).0)
walker_ioctl_unlocked-Serves_example = walker_ioctl_unlocked-Serves machine 9 9 user nothing_held

abbrev pagemap : PagemapFile
unfolding le_bytes
pagemap = record {
  open_path = λ t. some 3;
  lseek = λ t offset. some offset;
  read = λ t. some (le_bytes 8 (pagemap_entry 77 1 0 1));
  errno = λ t. 5;
}

abbrev device : Device
device = record { open_path = λ t. some 4; ioctl = λ t query. (pos 0, query) }

translated : (translate_address pagemap (2 ^ 12) 0 0x345678 []).1 ≡ (0, 77 * 2 ^ 12 + 0x678)
unfolding translate_address from_le le_bytes
translated = refl
