-- ===== src/Sysfs/Lifetime.antt =====
-- kernel-module/sysfs/demo_sysfs.c: the module loaded and unloaded, again and again.
use snippet.Base.{
  ℕ, ◌+◌, ◌≡◌, refl, sym, ◌∙◌, true, false, if◌then◌else◌, List, [], ◌∷◌, ℤ, is_zero, ◌⊎◌,
  Bool-cases, inl, inr, arith,
}
use snippet.Sysfs.DemoSysfs.{
  SysfsDemo, Answers, create_and_online_entity_device, offline_entity_device, free_entity,
  release_entity_device, demo_sysfs_init, demo_sysfs_exit,
}

abbrev pub never_loaded : SysfsDemo
never_loaded = record {
  root_dev = false;
  entity_dev = false;
  online = false;
  entities_out = 0;
  entities_in = 0;
  names_out = 0;
  names_in = 0;
  roots_out = 0;
  roots_in = 0;
}

-- One load: the init, and the exit when the init returned 0.
unfoldable pub load_once : Answers → SysfsDemo → SysfsDemo
load_once k d =
    let (loaded, ret) = demo_sysfs_init k d in
    if is_zero ret then demo_sysfs_exit loaded else loaded

unfoldable pub load_all : List Answers → SysfsDemo → SysfsDemo
unfolding load_once
load_all [] d = d
load_all (k ∷ ks) d = load_all ks (load_once k d)

-- The loads of which the device could be named and not added.
abbrev pub unadded : Answers → ℕ
unadded k =
    if k.root_device_register
    then (if k.kzalloc
        then (if is_zero k.dev_set_name then (if is_zero k.device_add then 0 else 1) else 0)
        else 0)
    else 0

abbrev pub count_unadded : List Answers → ℕ
count_unadded [] = 0
count_unadded (k ∷ ks) = unadded k + count_unadded ks

-- A load that is online: an entity, its name and its root device have been got.
pub record IsOnline (before d : SysfsDemo) : Type 0 where
  pub online : d.online ≡ true
  pub variables : (d.root_dev ≡ true) × (d.entity_dev ≡ true)
  pub entity : (d.entities_out ≡ before.entities_out + 1) × (d.entities_in ≡ before.entities_in)
  pub name : (d.names_out ≡ before.names_out + 1) × (d.names_in ≡ before.names_in)
  pub root : (d.roots_out ≡ before.roots_out + 1) × (d.roots_in ≡ before.roots_in)

-- A load that has ended: what it got it gave back, but for `lost` names.
pub record IsSettled (lost : ℕ) (before d : SysfsDemo) : Type 0 where
  pub offline : d.online ≡ before.online
  pub entities : d.entities_out + before.entities_in ≡ before.entities_out + d.entities_in
  pub names : d.names_out + before.names_in ≡ before.names_out + d.names_in + lost
  pub roots : d.roots_out + before.roots_in ≡ before.roots_out + d.roots_in

abbrev pub InitSettles : Answers → SysfsDemo → SysfsDemo × ℤ → Type 0
InitSettles k before r =
    ((is_zero r.1 ≡ true) × (unadded k ≡ 0) × IsOnline before r.0)
    ⊎ ((is_zero r.1 ≡ false) × (r.0.root_dev ≡ false) × IsSettled (unadded k) before r.0)

-- `demo_sysfs_init` does all or nothing: when it returns 0 the device is online, with one entity,
-- one name and one root device; else the entity and the root device have been given back, and the
-- name has not when `device_add` failed.
pub demo_sysfs_init-InitSettles :
    (k : Answers) (d : SysfsDemo) → InitSettles k d (demo_sysfs_init k d)
unfolding demo_sysfs_init create_and_online_entity_device free_entity
demo_sysfs_init-InitSettles k d = elim (Bool-cases k.root_device_register) [
  | inr unrooted ↦ rw unrooted (inr (refl, refl, ground arith))
  | inl rooted ↦ elim (Bool-cases k.kzalloc) [
    | inr unmade ↦ rw (rooted, unmade) (inr (refl, refl, ground arith))
    | inl made ↦ elim (Bool-cases (is_zero k.dev_set_name)) [
      | inr unnamed ↦ rw (rooted, made, unnamed, unnamed) (inr (unnamed, refl, ground arith))
      | inl named ↦ elim (Bool-cases (is_zero k.device_add)) [
        | inr failed ↦ rw (rooted, made, named, failed, failed) (inr (failed, refl, ground arith))
        | inl added ↦ rw (rooted, made, named, added) (inl (refl, refl, ground arith))
      ]
    ]
  ]
]

IsSettled-trans :
    (a b : ℕ) (d₀ d₁ d₂ : SysfsDemo)
    → IsSettled a d₀ d₁
    → IsSettled b d₁ d₂
    → IsSettled (a + b) d₀ d₂
IsSettled-trans a b d₀ d₁ d₂ h k = record {
  offline = k.offline ∙ h.offline;
  entities = omega (arith, h.entities, k.entities);
  names = omega (arith, h.names, k.names);
  roots = omega (arith, h.roots, k.roots);
}

load_once-IsSettled :
    (k : Answers) (d : SysfsDemo) → d.online ≡ false → IsSettled (unadded k) d (load_once k d)
unfolding load_once demo_sysfs_exit offline_entity_device release_entity_device
load_once-IsSettled k d off = elim (demo_sysfs_init-InitSettles k d) [
  | inl (zero_ret, all_added, on) ↦
      let entity = on.entity in
      let name = on.name in
      let root = on.root in
      rw (zero_ret, all_added)
        (record {
          offline = sym off;
          entities = omega arith;
          names = omega arith;
          roots = omega arith;
        })
  | inr (failed, unrooted, settled) ↦ rw failed settled
]

-- Over any number of loads, whichever of them fail and where: the entities and root devices that the
-- module got have been given back, and of the names all but one for each load in which `device_add`
-- failed.
pub load_all-IsSettled :
    (ks : List Answers) (d : SysfsDemo)
    → d.online ≡ false
    → IsSettled (count_unadded ks) d (load_all ks d)
unfolding load_all
load_all-IsSettled [] d off = record {
  offline = refl;
  entities = refl;
  names = omega arith;
  roots = refl;
}
load_all-IsSettled (k ∷ ks) d off =
    let once = load_once-IsSettled k d off in
    IsSettled-trans (unadded k) (count_unadded ks) d (load_once k d) (load_all ks (load_once k d))
      once (load_all-IsSettled ks (load_once k d) (once.offline ∙ off))
