-- ===== src/HelmV3/Imports.antt =====
-- What the file of repositories contains (pkg/helm/v3/repository.go), under the documented behaviour
-- of the package `repo`: an entry is added at the end, and a name is found where an entry has it.
use helm_operator.Base.{
  Bool, List, Option, String, [], ap, arith, false, if◌then◌else◌, none, refl, some, str_eq,
  str_eq_iff, str_eq_refl, subst, sym, true, ◌++◌, ◌||◌, ◌∙◌, ◌∷◌, ◌≡◌, append-nil, append_assoc,
  Bool-cases, ◌⊎◌, inl, inr, All,
}
use helm_operator.Errors.{Error, plain}
use helm_operator.Effects.{ok, Result, err}
use helm_operator.HelmV3.Repositories.{
  Entry, Repo, index_of, add_indexed, import_all, repository_add, load_repository_config, add_to,
  write_if,
}

abbrev pub named : String → List Entry → Bool
named n [] = false
named n (e ∷ es) = str_eq e.name n || named n es

-- No two entries have a name.
abbrev pub Unique : List Entry → Type 0
Unique [] = Unit
Unique (e ∷ es) = (named e.name es ≡ false) × Unique es

pub record Keeps {W F : Type 0} (repo : Repo W F) : Type 0 where
  pub added :
      (e : Entry) (f : F) → repo.repositories (repo.add e f) ≡ repo.repositories f ++ (e ∷ [])
  pub found : (n : String) (f : F) → repo.has n f ≡ named n (repo.repositories f)

named-append :
    (n : String) (es : List Entry) (e : Entry)
    → named n (es ++ (e ∷ [])) ≡ (named n es || str_eq e.name n)
named-append n [] e = ground arith
named-append n (d ∷ es) e = ground (arith, named-append n es e)

named-kept : (n : String) (es added : List Entry) → named n es ≡ true → named n (es ++ added) ≡ true
named-kept n [] added h = absurd cc
named-kept n (e ∷ es) added h = elim (Bool-cases (str_eq e.name n)) [
  | inl t ↦ rw t refl
  | inr f ↦ rw f (named-kept n es added (ground arith))
]

Unique-append :
    (es : List Entry) (e : Entry) → Unique es → named e.name es ≡ false → Unique (es ++ (e ∷ []))
Unique-append [] e u h = (refl, tt)
Unique-append (d ∷ es) e (f, u) h = (
  named-append d.name es e ∙ ground (arith, str_eq_iff d.name e.name, str_eq_iff e.name d.name),
  Unique-append es e u (ground arith),
)

module _ {W F : Type 0} (repo : Repo W F) (laws : Keeps repo) where
  -- A file that has no name twice, and the repositories of another before those that it adds.
  abbrev pub Grows : F → F → Type 0
  Grows f g =
      Unique (repo.repositories g)
      × ((added : List Entry) × (repo.repositories g ≡ repo.repositories f ++ added))

  stays-Grows : (f : F) → Unique (repo.repositories f) → Grows f f
  stays-Grows f u = (u, ([], sym (append-nil _)))

  indexed-Grows :
      (e : Entry) (f : F) (x : Option Error × W)
      → Unique (repo.repositories f)
      → repo.has e.name f ≡ false
      → Grows f (add_indexed repo e f x).0
  indexed-Grows e f (some _, w) u h = stays-Grows f u
  indexed-Grows e f (none, w) u h = (
    subst Unique (sym (laws.added e f))
        (Unique-append (repo.repositories f) e u (sym (laws.found e.name f) ∙ h)),
    (e ∷ [], laws.added e f),
  )

  next-Grows :
      (e : Entry) (f : F) (w : W) (b : Bool)
      → repo.has e.name f ≡ b
      → Unique (repo.repositories f)
      → Grows f (if b then (f, w) else add_indexed repo e f (index_of repo e w)).0
  next-Grows e f w true h u = stays-Grows f u
  next-Grows e f w false h u = indexed-Grows e f (index_of repo e w) u h

  has-add : (e : Entry) (f : F) → repo.has e.name (repo.add e f) ≡ true
  has-add e f =
      laws.found e.name (repo.add e f)
      ∙ ap (named e.name) (laws.added e f)
      ∙ named-append e.name (repo.repositories f) e
      ∙ last
    where
      last : (named e.name (repo.repositories f) || str_eq e.name e.name) ≡ true
      last = ground (arith, str_eq_refl e.name)

  -- A repository that cannot be set up, or whose index could not be downloaded.
  abbrev pub Unreachable : Entry → Type 0
  Unreachable e =
      ((error : Error) × (repo.new_chart_repository e ≡ some error))
      ⊎ ((w : W) × (error : Error) × ((repo.download_index_file e w).0 ≡ some error))

  -- A repository whose name a file has, unless it is unreachable.
  abbrev pub Imported : F → Entry → Type 0
  Imported f e = (named e.name (repo.repositories f) ≡ true) ⊎ Unreachable e

  named-grown :
      (n : String) (f g : F)
      → Grows f g
      → named n (repo.repositories f) ≡ true
      → named n (repo.repositories g) ≡ true
  named-grown n f g (u, (added, a)) h = ap (named n) a ∙ named-kept n (repo.repositories f) added h

  index_of-Unreachable :
      (e : Entry) (w : W) (error : Error) → (index_of repo e w).0 ≡ some error → Unreachable e
  index_of-Unreachable e w error h = unreachable (repo.new_chart_repository e) refl h
    where
      unreachable :
          (o : Option Error)
          → repo.new_chart_repository e ≡ o
          → (elim o as (λ _. Option Error × W) [
            | some x ↦ (some x, w)
            | none ↦ repo.download_index_file e w
          ]).0
            ≡ some error
          → Unreachable e
      unreachable (some x) q h = inl (x, q)
      unreachable none q h = inr (w, error, h)

  indexed-Imported :
      (e : Entry) (f : F) (w : W) (x : Option Error × W)
      → index_of repo e w ≡ x
      → Imported (add_indexed repo e f x).0 e
  indexed-Imported e f w (some error, v) h = inr (index_of-Unreachable e w error (ap (λ x. x.0) h))
  indexed-Imported e f w (none, v) h = inl (sym (laws.found e.name (repo.add e f)) ∙ has-add e f)

  next-Imported :
      (e : Entry) (f : F) (w : W) (b : Bool)
      → repo.has e.name f ≡ b
      → Imported (if b then (f, w) else add_indexed repo e f (index_of repo e w)).0 e
  next-Imported e f w true h = inl (sym (laws.found e.name f) ∙ h)
  next-Imported e f w false h = indexed-Imported e f w (index_of repo e w) refl

  Imported-grown : (e : Entry) (f g : F) → Grows f g → Imported f e → Imported g e
  Imported-grown e f g r (inl h) = inl (named-grown e.name f g r h)
  Imported-grown e f g r (inr u) = inr u

  Grows-trans : (f g h : F) → Grows f g → Grows g h → Grows f h
  Grows-trans f g h (u, (added, a)) (v, (later, b)) = (
    v,
    (added ++ later, b ∙ ap (λ l. l ++ later) a ∙ append_assoc (repo.repositories f) added later),
  )

  -- An import into a file that has no name twice keeps every repository that is there, as it is and in
  -- its place, and has no name twice afterwards either. Afterwards the file has the name of every
  -- entry that is imported, unless the repository of the entry is unreachable.
  pub import_all-Grows :
      (es : List Entry) (f : F) (w : W)
      → Unique (repo.repositories f)
      → Grows f (import_all repo es f w).0 × All (Imported (import_all repo es f w).0) es
  unfolding import_all
  import_all-Grows [] f w u = (stays-Grows f u, tt)
  import_all-Grows (e ∷ es) f w u =
      let next = (if repo.has e.name f then (f, w) else add_indexed repo e f (index_of repo e w)) in
      let step = next-Grows e f w (repo.has e.name f) refl u in
      let rest = import_all-Grows es next.0 next.1 step.0 in
      let last = (import_all repo es next.0 next.1).0 in
      (
        Grows-trans f next.0 last step rest.0,
        (
          Imported-grown e next.0 last rest.0 (next-Imported e f w (repo.has e.name f) refl),
          rest.1,
        ),
      )

  -- Why a repository is not added: the error of the file, or that of a name that exists.
  abbrev pub refusal : Result F → Error
  refusal (err e) = e
  refusal (ok _) = plain "chart repository with name '%s' already exists"

  refused : (e : Entry) (x : Result F × W) → add_to repo e x ≡ (some (refusal x.0), x.1)
  refused e (err e', w) = refl
  refused e (ok f, w) =
      ap
        (λ b.
          if b
          then (some (plain "chart repository with name '%s' already exists"), w)
          else write_if repo (repo.add e f) (index_of repo e w))
        (has-add e f)

  -- A repository is never added: the entry is put into the file before its name is looked for. Every
  -- call reads the file and does nothing else, and returns the error of a name that exists, or
  -- that of the file where it cannot be read.
  pub repository_add_refused :
      (e : Entry) (w : W)
      → let read = load_repository_config repo w in
        repository_add repo e w ≡ (some (refusal read.0), read.1)
  unfolding repository_add
  repository_add_refused e w = refused e (load_repository_config repo w)
