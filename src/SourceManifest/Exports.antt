-- ===== src/SourceManifest/Exports.antt =====
-- What scripts/source_manifest.py lets into the source export.
use uart2llm.Prelude.{
  ◌≡◌, refl, sym, ap, ◌∙◌, String, Bool, true, false, List, [], ◌∷◌, ◌++◌, All, ◌⊎◌, inl, inr,
  Bool-cases, if◌then◌else◌, append-nil, append_assoc,
}
use mathlib.Core.Path.{subst}
use uart2llm.Prelude.Sort.{sort}
use uart2llm.Python.Error.{Error, Result, ok, raise, ◌>>=◌, raise-eq-ok, ok-injective}
use uart2llm.SourceManifest.{
  File, Folders, folder, no_folders, add_folder, root_files, is_in, excluded, private_name, listed,
  visit_file, visit_files, check_folders, by_name, visit, walk, source_files,
}

-- The folders on the way down from the given one are all walked.
abbrev pub Walked : List String → List String → Type 0
Walked at [] = Unit
Walked at (name ∷ names) = (excluded at name ≡ false) × Walked (at ++ (name ∷ [])) names

-- A path that the export may hold: a listed file of the root, or a file below that is not private and
-- is listed, in folders that are walked.
pub record IsExport (path : List String) : Type 0 where
  pub at : List String
  pub name : String
  pub parts : path ≡ at ++ (name ∷ [])
  pub walked : Walked [] at
  pub allowed :
      ((at ≡ []) × (is_in root_files name ≡ true))
      ⊎ ((private_name name ≡ false) × (listed at name ≡ true))

-- A result that raises or holds exports alone.
data Exports : Result (List (List String)) → Type 0 where
  raised : (e : Error) → Exports (raise e)
  exported : (paths : List (List String)) → All IsExport paths → Exports (ok paths)

All-append :
    (xs ys : List (List String)) → All IsExport xs → All IsExport ys → All IsExport (xs ++ ys)
All-append [] ys h k = k
All-append (x ∷ xs) ys (now, later) k = (now, All-append xs ys later k)

Exports-bind :
    {A : Type 0} (m : Result A) (f : A → Result (List (List String)))
    → ((a : A) → m ≡ ok a → Exports (f a))
    → Exports (m >>= f)
unfolding ◌>>=◌
Exports-bind (ok a) f h = h a refl
Exports-bind (raise e) f h = raised e

Exports-then :
    (m : Result (List (List String))) (f : List (List String) → Result (List (List String)))
    → Exports m
    → ((paths : List (List String)) → All IsExport paths → Exports (f paths))
    → Exports (m >>= f)
unfolding ◌>>=◌
Exports-then (ok paths) f (exported _ all) h = h paths all
Exports-then (raise e) f g h = raised e

visit_file-listed :
    (at : List String) (file : File)
    → visit_file at file ≡ ok true
    → ((at ≡ []) × (is_in root_files file.name ≡ true))
      ⊎ ((private_name file.name ≡ false) × (listed at file.name ≡ true))
unfolding visit_file
visit_file-listed [] file h = inl (refl, ok-injective (raise-eq-ok file.link _ _ h).1)
visit_file-listed (part ∷ parts) file h =
    let (open_file, rest) = raise-eq-ok file.link _ _ h in
    let (public, yielded) = raise-eq-ok (private_name file.name) _ _ rest in
    inr (public, ok-injective yielded)

visit_files-Exports :
    (at : List String) (files : List File) → Walked [] at → Exports (visit_files at files)
unfolding visit_files
visit_files-Exports at [] h = exported [] tt
visit_files-Exports at (file ∷ files) h = Exports-bind (visit_file at file) _ (λ here visited.
    Exports-then (visit_files at files) _ (visit_files-Exports at files h)
      (λ rest all. one here rest visited all))
  where
    one :
        (here : Bool) (rest : List (List String))
        → visit_file at file ≡ ok here
        → All IsExport rest
        → Exports (ok (if here then (at ++ (file.name ∷ [])) ∷ rest else rest))
    one false rest visited all = exported rest all
    one true rest visited all = exported _ (
      record {
        at = at;
        name = file.name;
        parts = refl;
        walked = h;
        allowed = visit_file-listed at file visited;
      },
      all,
    )

visit-Exports :
    (at : List String) (files : List File) (inner : Folders) (below : Result (List (List String)))
    → Walked [] at
    → Exports below
    → Exports (visit at files inner below)
unfolding visit
visit-Exports at files inner below h deeper = Exports-bind (check_folders inner) _ (λ _ _.
    Exports-then _ _ (visit_files-Exports at (sort by_name files) h) (λ here all.
      Exports-then below _ deeper
        (λ more rest. exported (here ++ more) (All-append here more all rest))))

Walked-append_one :
    (from at : List String) (name : String)
    → Walked from at
    → excluded (from ++ at) name ≡ false
    → Walked from (at ++ (name ∷ []))
Walked-append_one from [] name h e = (ap (λ p. excluded p name) (sym (append-nil from)) ∙ e, tt)
Walked-append_one from (part ∷ at) name (now, later) e = (
  now,
  Walked-append_one (from ++ (part ∷ [])) at name later
      (ap (λ p. excluded p name) (append_assoc from (part ∷ []) at) ∙ e),
)

walk-Exports : (at : List String) (inner : Folders) → Walked [] at → Exports (walk at inner)
unfolding walk
walk-Exports at no_folders h = exported [] tt
walk-Exports at (add_folder (folder name link files inner) rest) h =
    Exports-then _ _
      (folder_in (Bool-cases (excluded at name))
        (λ entered. walk-Exports (at ++ (name ∷ [])) inner entered))
      (λ first all.
        Exports-then (walk at rest) _ (walk-Exports at rest h)
          (λ more later. exported (first ++ more) (All-append first more all later)))
  where
    folder_in :
        (excluded at name ≡ true) ⊎ (excluded at name ≡ false)
        → (Walked [] (at ++ (name ∷ [])) → Exports (walk (at ++ (name ∷ [])) inner))
        → Exports (
            if excluded at name
            then ok []
            else visit (at ++ (name ∷ [])) files inner (walk (at ++ (name ∷ [])) inner))
    folder_in (inl skip) deeper = rw skip (exported [] tt)
    folder_in (inr enter) deeper =
        let entered = Walked-append_one [] at name h enter in
        rw enter (visit-Exports (at ++ (name ∷ [])) files inner _ entered (deeper entered))

-- Every path of an export is a listed file of the root, or a listed file below it whose name is not
-- private, reached through folders that are all walked: groups of the root, and none excluded.
pub source_files_safe :
    (files : List File) (inner : Folders) (paths : List (List String))
    → source_files files inner ≡ ok paths
    → All IsExport paths
unfolding source_files
source_files_safe files inner paths h =
    safe _ (visit-Exports [] files inner (walk [] inner) tt (walk-Exports [] inner tt)) h
  where
    safe : (r : Result (List (List String))) → Exports r → r ≡ ok paths → All IsExport paths
    safe (raise e) g p = cc
    safe (ok found) (exported _ all) p = subst (All IsExport) (ok-injective p) all
