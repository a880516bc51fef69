-- ===== src/Sysfs/Tests.antt =====
-- Runs of the two programs of kernel-module/sysfs.
use snippet.Base.{
  ◌≡◌, refl, List, [], ◌∷◌, ◌==◌, length, if◌then◌else◌, some, pos, neg, true, arith,
}
use snippet.Posix.{codes, open_fds}
use snippet.Sysfs.Entity.{entity_template}
use snippet.Sysfs.DemoSysfs.{Answers, magic_show, version_show, data_read}
use snippet.Sysfs.Reader.{
  Files, magic_path, version_path, data_path, read_entity, cleared, sysfs_reader_main,
}
use snippet.Sysfs.Lifetime.{never_loaded, load_all, IsSettled, count_unadded, load_all-IsSettled}
use snippet.Sysfs.Shown.{IsShowable, Serves, read_entity-shown, sysfs_reader_main-shown}

magic_text : magic_show entity_template ≡ codes "0x31415926"
unfolding magic_show
magic_text = refl

-- A load that works, and one in which the device cannot be added.
abbrev two_loads : List Answers
two_loads =
    record { root_device_register = true; kzalloc = true; dev_set_name = pos 0; device_add = pos 0 }
    ∷ record {
      root_device_register = true;
      kzalloc = true;
      dev_set_name = pos 0;
      device_add = neg 17;
    }
    ∷ []

load_all-IsSettled_example :
    IsSettled (count_unadded two_loads) never_loaded (load_all two_loads never_loaded)
load_all-IsSettled_example = load_all-IsSettled two_loads never_loaded refl

-- Files with the module's entity. The descriptors are the lengths of the paths, which differ.
abbrev shown_files : Files
shown_files = record {
  open_path = λ t path. some (length path);
  stream = λ t fd.
      if fd == length magic_path then magic_show entity_template else version_show entity_template;
  read = λ t fd. some (data_read entity_template);
}

template-IsShowable : IsShowable entity_template
template-IsShowable = record {
  magic_fits = omega arith;
  text = codes "2025.02.26";
  one_word = ground arith;
  not_empty = omega arith;
  fits = omega arith;
  padded = refl;
  data_size = refl;
}

abbrev shown_files_serving : Serves shown_files entity_template
shown_files_serving = record {
  magic_fd = length magic_path;
  version_fd = length version_path;
  data_fd = length data_path;
  opens_magic = λ t. refl;
  opens_version = λ t. refl;
  opens_data = λ t. refl;
  shows_magic = λ t. refl;
  shows_version = λ t. refl;
  reads_data = λ t. refl;
}

read_entity-shown_example :
    ((read_entity shown_files cleared []).1 ≡ some (entity_template, pos 0))
    × (open_fds (read_entity shown_files cleared []).0 ≡ length data_path ∷ open_fds [])
read_entity-shown_example =
    read_entity-shown shown_files entity_template template-IsShowable shown_files_serving []

main_matches : (sysfs_reader_main shown_files []).1 ≡ some (pos 0)
main_matches =
    sysfs_reader_main-shown shown_files entity_template template-IsShowable shown_files_serving refl
      []
