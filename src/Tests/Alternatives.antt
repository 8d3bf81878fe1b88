-- ===== src/Tests/Alternatives.antt =====
-- The theorems on link groups at concrete groups and files.
use dpkg.Alternatives.Saving.{alternative_save, file_text, tidy}
use dpkg.Base.{
  Bool, CString, List, Option, [], ap, arith, codes, false, in_set, length, refl, some, str_eq, suc,
  true, zero, ℕ, ◌++◌, ◌∷◌, ◌≡◌, ◌≢◌,
}
use dpkg.Base.Int.{pos}
use dpkg.Alternatives.{
  Alternative, Fileset, SlaveLink, alt_st_manual, alternative_new, best_choice, fileset_get_slave,
  find_slave_file, same_status,
}
use dpkg.Alternatives.Best.{IsBest, best_choice-IsBest}
use dpkg.Alternatives.Removal.{IsRemoved, alternative_remove-IsRemoved}
use dpkg.Alternatives.Choices.{IsMap}
use dpkg.Alternatives.Database.{altdb_get_line, alternative_load, loaded, overrun}
use dpkg.Alternatives.Database.Tidy.{IsSavable}
use dpkg.Alternatives.Database.RoundTrip.{alternative_save-load, loaded_group}
use dpkg.Alternatives.Database.LongLines.{altdb_get_line_overrun}
use dpkg.Alternatives.Links.{Files, System, alt_path, node_missing}
use dpkg.Alternatives.Links.Install.{
  IsInstalled, IsReady, install_single, install_single-IsInstalled,
}
use dpkg.Alternatives.Actions.{alternative_remove}

abbrev vim : Fileset
vim = record {
  master_file = codes "/bin/vim";
  priority = pos 50;
  slaves = record { name = codes "man"; file = codes "/man/vim" } ∷ [];
}

abbrev nano : Fileset
nano = record { master_file = codes "/bin/nano"; priority = pos 40; slaves = [] }

abbrev man : SlaveLink
man = record { name = codes "man"; link = codes "/man/editor"; updated = false }

abbrev editor_link : CString
editor_link = codes "/bin/editor"

abbrev editor : Alternative
editor = record {
  master_name = codes "editor";
  master_link = some editor_link;
  current = some vim.master_file;
  status = alt_st_manual;
  slaves = man ∷ [];
  choices = nano ∷ vim ∷ [];
  commit_ops = [];
  modified = false;
  known_current = true;
}

two_choices : ◌≢◌ {A = List Fileset} (nano ∷ vim ∷ []) []
two_choices e = cc

best_choice-IsBest_example :
    (b : Fileset) × (best_choice (nano ∷ vim ∷ []) (some nano.master_file) ≡ some b)
    × IsBest (nano ∷ vim ∷ []) (some nano.master_file) b
best_choice-IsBest_example =
    best_choice-IsBest (nano ∷ vim ∷ []) (some nano.master_file) two_choices

editor-IsMap : IsMap editor
unfolding str_eq
editor-IsMap = ((refl, tt), (tt, tt))

-- Every file is there, and `mv` changes nothing.
abbrev system : System
system = record {
  mv = λ src dst fs. some fs;
  missing = λ fs p. false;
  altdir = codes "/etc/alternatives";
  force = false;
}

abbrev no_files : Files
no_files p = node_missing

alternative_remove-IsRemoved_example :
    (b : Alternative) × (new : Option CString) × (alternative_remove system editor
        (some vim.master_file)
        vim.master_file
        no_files
      ≡ some (b, new))
    × IsRemoved editor vim.master_file b new
alternative_remove-IsRemoved_example =
    alternative_remove-IsRemoved system editor vim.master_file no_files refl editor-IsMap

abbrev nothing_missing : CString → Bool
nothing_missing p = false

editor-IsSavable : IsSavable nothing_missing editor_link editor
unfolding str_eq fileset_get_slave find_slave_file same_status file_text
editor-IsSavable = record {
  link_is = refl;
  status_set = refl;
  link_line = record { no_newline = refl; fits = omega arith };
  slaves = (
    record {
      name_line = record { no_newline = refl; fits = omega arith };
      name_set = refl;
      link_line = record { no_newline = refl; fits = omega arith };
      own_link = refl;
    },
    tt,
  );
  names = (tt, tt);
  links = (tt, tt);
  choices = (
    record {
      file_line = record { no_newline = refl; fits = omega arith };
      file_set = refl;
      present = refl;
      in_range = refl;
      slave_lines = (record { no_newline = refl; fits = omega arith }, tt);
    },
    (
      record {
        file_line = record { no_newline = refl; fits = omega arith };
        file_set = refl;
        present = refl;
        in_range = refl;
        slave_lines = (record { no_newline = refl; fits = omega arith }, tt);
      },
      tt,
    ),
  );
  files = editor-IsMap;
}

alternative_save-load_example :
    (text : CString) × ((alternative_save editor).1 ≡ some text)
    × (alternative_load nothing_missing (alternative_new (codes "editor")) false (some text)
        ≡ loaded (loaded_group (alternative_new (codes "editor")) editor_link (tidy editor)))
alternative_save-load_example =
    alternative_save-load nothing_missing editor_link editor (alternative_new (codes "editor"))
      false editor-IsSavable

abbrev copies : ℕ → CString
copies zero = []
copies (suc n) = b'x' ∷ copies n

copies_plain : (n : ℕ) → in_set 10 (copies n) ≡ false
copies_plain zero = refl
copies_plain (suc n) = copies_plain n

length-copies : (n : ℕ) → length (copies n) ≡ n
length-copies zero = refl
length-copies (suc n) = ap suc (length-copies n)

altdb_get_line_overrun_example : altdb_get_line (copies 1025 ++ 10 ∷ []) ≡ overrun
altdb_get_line_overrun_example =
    altdb_get_line_overrun (copies 1025) [] (copies_plain 1025) (omega (arith, length-copies 1025))
      (omega (arith, length-copies 1025))

editor-IsReady : IsReady system no_files (alt_path system (codes "editor")) editor_link
unfolding str_eq
editor-IsReady = record {
  directory_there = refl;
  apart = ((refl, (refl, (refl, tt))), ((refl, (refl, tt)), ((refl, tt), (tt, tt))));
  no_directories = (refl, (refl, (refl, (refl, tt))));
}

install_single-IsInstalled_example :
    (c : Alternative) × (fs' : Files) × (install_single system editor
        (codes "editor")
        editor_link
        (codes "/bin/vim")
        no_files
      ≡ some (c, fs'))
    × IsInstalled system no_files fs'
        (alt_path system (codes "editor"))
        editor_link
        (codes "/bin/vim")
install_single-IsInstalled_example =
    install_single-IsInstalled system editor (codes "editor") editor_link (codes "/bin/vim")
      no_files refl editor-IsReady
