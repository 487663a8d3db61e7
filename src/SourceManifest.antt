-- ===== src/SourceManifest.antt =====
-- scripts/source_manifest.py: `source_files`, the allow list of the source export. What `os.walk`
-- finds is a tree of folders; a path is the list of its parts below the root.
pub mod Exports
mod Tests
use uart2llm.Prelude.{
  ℕ, ◌+◌, ◌-◌, String, Bool, true, false, List, [], ◌∷◌, ◌++◌, not, ◌&&◌, ◌||◌, ◌==◌, str_eq, any,
  codes, ltb, if◌then◌else◌, take,
}
use uart2llm.Prelude.Sort.{sort}
use uart2llm.Python.Error.{Result, ok, raise, ◌>>=◌, ◌>>◌, raise_if, value_error}
use uart2llm.Python.Text.{starts_with, equal}

pub record File : Type 0 where
  pub name : String
  pub link : Bool

-- A folder with its name, whether it is a link, its files, and the folders in it.
mutual
  pub data Folder : Type 0 where
    folder : String → Bool → List File → Folders → Folder

  pub data Folders : Type 0 where
    no_folders : Folders
    add_folder : Folder → Folders → Folders

abbrev pub root_files : List String
root_files =
    "README.md" ∷ "LICENSE" ∷ "THIRD_PARTY.md" ∷ "CHANGELOG.md" ∷ "CONTRIBUTING.md" ∷ "SECURITY.md"
    ∷ "go.mod" ∷ "go.sum" ∷ ".gitignore" ∷ ".gitattributes" ∷ []

abbrev pub groups : List String
groups =
    "cmd" ∷ "internal" ∷ "firmware" ∷ "web" ∷ "native" ∷ "integrations" ∷ "scripts" ∷ "packaging"
    ∷ "docs" ∷ ".github" ∷ []

abbrev pub suffixes : List String
suffixes =
    ".go" ∷ ".py" ∷ ".ps1" ∷ ".mjs" ∷ ".json" ∷ ".ts" ∷ ".tsx" ∷ ".css" ∷ ".html" ∷ ".h" ∷ ".cpp"
    ∷ ".c" ∷ ".cmake" ∷ ".yml" ∷ ".yaml" ∷ ".md" ∷ ".txt" ∷ ".nsi" ∷ ".csv" ∷ ".lock" ∷ ".svg" ∷ []

abbrev pub names : List String
names =
    "CMakeLists.txt" ∷ "Kconfig.projbuild" ∷ "sdkconfig.defaults" ∷ "sdkconfig.usb-validation"
    ∷ ".clang-format" ∷ []

abbrev pub exclude_dirs : List String
exclude_dirs =
    "node_modules" ∷ "dist" ∷ "build" ∷ "build-usb" ∷ "managed_components" ∷ "evidence"
    ∷ "__pycache__" ∷ ".pytest_cache" ∷ ".local" ∷ ".tools" ∷ ".git" ∷ "test-reports" ∷ []

-- `name in names`
pub is_in : List String → String → Bool
is_in texts name = any (str_eq name) texts

abbrev pub empty_path : List String → Bool
empty_path [] = true
empty_path (part ∷ parts) = false

abbrev pub same_path : List String → List String → Bool
same_path [] [] = true
same_path (a ∷ ps) (b ∷ qs) = str_eq a b && same_path ps qs
same_path [] (b ∷ qs) = false
same_path (a ∷ ps) [] = false

-- From the last dot on; [] where there is none.
last_dot : List ℕ → List ℕ
last_dot [] = []
last_dot (c ∷ cs) =
    let later = last_dot cs in elim later [ [] ↦ if c == 46 then c ∷ cs else [] | d ∷ ds ↦ d ∷ ds ]

-- A suffix that is a dot alone counts as none.
with_dot : List ℕ → List ℕ
with_dot [] = []
with_dot (c ∷ []) = []
with_dot (c ∷ (d ∷ cs)) = c ∷ (d ∷ cs)

-- `path.suffix`: a dot that begins the name does not begin a suffix.
pub suffix : List ℕ → List ℕ
unfolding last_dot with_dot
suffix [] = []
suffix (c ∷ cs) = with_dot (last_dot cs)

pub has_suffix : List String → String → Bool
unfolding suffix
has_suffix allowed name = any (λ s. equal (suffix (codes name)) (codes s)) allowed

-- The folders that are not walked, in the folder at the given path.
pub excluded : List String → String → Bool
unfolding is_in
excluded at name =
    is_in exclude_dirs name
    || starts_with (codes "build-") (codes name)
    || (empty_path at && not (is_in groups name))

-- The files that stop the export.
pub private_name : String → Bool
unfolding has_suffix
private_name name =
    starts_with (codes ".env") (codes name)
    || starts_with (codes "pairing.") (codes name)
    || starts_with (codes "cookies.") (codes name)
    || has_suffix (".pem" ∷ ".key" ∷ []) name

-- Whether a file below the root is exported.
pub listed : List String → String → Bool
unfolding is_in has_suffix
listed at name =
    let rel = at ++ (name ∷ []) in
    if same_path (take 3 rel) ("internal" ∷ "ui" ∷ "assets" ∷ [])
    then same_path rel ("internal" ∷ "ui" ∷ "assets" ∷ "index.html" ∷ [])
    else same_path rel ("packaging" ∷ "sources" ∷ "esptool-5.4.0.tar.gz" ∷ [])
      || is_in rel "licenses"
      || has_suffix suffixes name
      || is_in names name

-- The body of the loop over the files: whether the file is yielded.
pub visit_file : List String → File → Result Bool
unfolding private_name listed is_in
visit_file at file =
    if file.link
    then raise (value_error "File links are not allowed in source exports")
    else if empty_path at
    then ok (is_in root_files file.name)
    else if private_name file.name
    then raise (value_error "Private material must be outside source directories")
    else ok (listed at file.name)

pub visit_files : List String → List File → Result (List (List String))
unfolding visit_file
visit_files at [] = ok []
visit_files at (file ∷ files) = do
  here ← visit_file at file
  rest ← visit_files at files
  ok (if here then (at ++ (file.name ∷ [])) ∷ rest else rest)

-- The loop over the folders stops at a link, excluded or not.
pub check_folders : Folders → Result (Unit {0})
check_folders no_folders = ok tt
check_folders (add_folder (folder name link files inner) rest) =
    raise_if link (value_error "Directory links are not allowed in source exports")
    >> check_folders rest

-- `sorted` by code points
abbrev codes_le : List ℕ → List ℕ → Bool
codes_le [] t = true
codes_le (c ∷ s) [] = false
codes_le (c ∷ s) (d ∷ t) = if c == d then codes_le s t else ltb c d

pub by_name : File → File → Bool
by_name a b = codes_le (codes a.name) (codes b.name)

-- One folder: its folders are checked, its files are yielded, and then what is in its folders.
pub visit :
    List String → List File → Folders → Result (List (List String)) → Result (List (List String))
unfolding visit_files check_folders
visit at files inner below = do
  check_folders inner
  here ← visit_files at (sort by_name files)
  deeper ← below
  ok (here ++ deeper)

-- The folders of a folder, each with all below it.
pub walk : List String → Folders → Result (List (List String))
unfolding visit excluded
walk at no_folders = ok []
walk at (add_folder (folder name link files inner) rest) =
    let inside = visit (at ++ (name ∷ [])) files inner (walk (at ++ (name ∷ [])) inner) in
    let after = walk at rest in
    do first ← if excluded at name then ok [] else inside; more ← after; ok (first ++ more)

-- The whole export, given the files and folders of the root.
pub source_files : List File → Folders → Result (List (List String))
unfolding walk
source_files files inner = visit [] files inner (walk [] inner)
