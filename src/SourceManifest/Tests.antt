-- ===== src/SourceManifest/Tests.antt =====
-- A run of `source_files`, and an instance of its theorem.
use uart2llm.Prelude.{◌≡◌, refl, String, false, List, [], ◌∷◌, All}
use uart2llm.Prelude.Sort.{sort}
use uart2llm.Python.Error.{ok, ◌>>=◌}
use uart2llm.SourceManifest.{File, Folders, folder, no_folders, add_folder, by_name, source_files}
use uart2llm.SourceManifest.Exports.{IsExport, source_files_safe}

abbrev file : String → File
file name = record { name = name; link = false }

abbrev folders : Folders
folders =
    add_folder (folder "scripts" false (file "notes.bin" ∷ file "a.py" ∷ []) no_folders)
      (add_folder (folder "evidence" false (file "b.py" ∷ []) no_folders) no_folders)

abbrev exports : List (List String)
exports = ("README.md" ∷ []) ∷ ("scripts" ∷ "a.py" ∷ []) ∷ []

source_files_run : source_files (file "README.md" ∷ []) folders ≡ ok exports
unfolding source_files sort by_name ◌>>=◌
source_files_run = refl

source_files_safe_example : All IsExport exports
source_files_safe_example =
    source_files_safe (file "README.md" ∷ []) folders exports source_files_run
