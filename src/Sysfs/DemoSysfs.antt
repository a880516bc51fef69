-- ===== src/Sysfs/DemoSysfs.antt =====
-- kernel-module/sysfs/demo_sysfs.c: the module's init and exit, and what its attributes show.
use snippet.Base.{
  ℕ, zero, suc, ◌+◌, ◌/◌, ◌%◌, Bool, true, false, not, List, [], ◌∷◌, ◌++◌, ltb, ◌==◌,
  if◌then◌else◌, ℤ, pos, neg, is_zero,
}
use snippet.Posix.{codes}
use snippet.Config.{c_prefix}
use snippet.Sysfs.Entity.{Entity}

-- The module's variables, by whether they are set, whether the device is online, and the entities,
-- names and root devices that it got and gave back. `dev_set_name` allocates the name, and the last
-- reference to an initialised device gives back the name and, by `release`, the entity.
pub record SysfsDemo : Type 0 where
  pub root_dev : Bool
  pub entity_dev : Bool
  pub online : Bool
  pub entities_out : ℕ
  pub entities_in : ℕ
  pub names_out : ℕ
  pub names_in : ℕ
  pub roots_out : ℕ
  pub roots_in : ℕ

-- The kernel's answers to an init.
pub record Answers : Type 0 where
  pub root_device_register : Bool
  pub kzalloc : Bool
  pub dev_set_name : ℤ
  pub device_add : ℤ

unfoldable pub release_entity_device : SysfsDemo → SysfsDemo
release_entity_device d = record d { entities_in = d.entities_in + 1 }

-- `kfree(entity_dev)` behind a call that failed.
unfoldable pub free_entity : SysfsDemo → SysfsDemo
free_entity d = record d { entities_in = d.entities_in + 1; entity_dev = false }

unfoldable pub create_and_online_entity_device : Answers → SysfsDemo → SysfsDemo × ℤ
unfolding free_entity
create_and_online_entity_device k d =
    if not k.kzalloc
    then (record d { entity_dev = false }, neg 12)
    else let made = record d { entity_dev = true; entities_out = d.entities_out + 1 } in
      if not (is_zero k.dev_set_name)
      then (free_entity made, k.dev_set_name)
      else let named = record made { names_out = made.names_out + 1 } in
        if not (is_zero k.device_add)
        then (free_entity named, k.device_add)
        else (record named { online = true }, pos 0)

-- `device_del`, and `put_device` of the last reference.
unfoldable pub offline_entity_device : SysfsDemo → SysfsDemo
unfolding release_entity_device
offline_entity_device d =
    let deleted = record d { online = false } in
    let cleaned = release_entity_device deleted in
    record cleaned { names_in = cleaned.names_in + 1 }

abbrev pub unregister_root : SysfsDemo → SysfsDemo
unregister_root d = record d { roots_in = d.roots_in + 1; root_dev = false }

unfoldable pub demo_sysfs_init : Answers → SysfsDemo → SysfsDemo × ℤ
unfolding create_and_online_entity_device
demo_sysfs_init k d =
    if not k.root_device_register
    then (record d { root_dev = false }, neg 1)
    else let rooted = record d { root_dev = true; roots_out = d.roots_out + 1 } in
      let created = create_and_online_entity_device k rooted in
      if not (is_zero created.1) then (unregister_root created.0, created.1) else (created.0, pos 0)

unfoldable pub demo_sysfs_exit : SysfsDemo → SysfsDemo
unfolding offline_entity_device
demo_sysfs_exit d = unregister_root (offline_entity_device d)

-- A digit in base 16, and the digits of a number before the text `out`.
abbrev pub hex_char : ℕ → ℕ
hex_char d = if ltb d 10 then 48 + d else 87 + d

unfoldable pub hex_digits : (room n : ℕ) → List ℕ → List ℕ
hex_digits zero n out = out
hex_digits (suc room) n out =
    let longer = hex_char (n % 16) ∷ out in
    let more = hex_digits room (n / 16) longer in if n / 16 == 0 then longer else more

-- `magic_show`, by the format "%#lx": a number of 64 bits has sixteen digits at most.
unfoldable pub magic_show : Entity → List ℕ
unfolding hex_digits
magic_show e = if e.magic == 0 then codes "0" else codes "0x" ++ hex_digits 16 e.magic []

-- `version_show`, and the read of the binary attribute.
unfoldable pub version_show : Entity → List ℕ
version_show e = c_prefix e.version

unfoldable pub data_read : Entity → List ℕ
data_read e = e.data_bytes
