-- ===== src/Main/Flags/Names.antt =====
-- cmd/main.go, lines 85-168: a sequence of `fs.…Var` calls on flag sets with different names.
use mathlib.Core.List.{append_assoc, append-nil}
use mathlib.Core.Option.{bind}
use tekton_kueue.Base.{
  String, none, some, some-ne-none, [], ◌∷◌, ◌++◌, ◌==◌, Bool-cases, lookup, insert, ◌≡◌, refl, sym,
  ap, ◌∙◌, ◌⊎◌, inl, inr, eq_iff, All,
}
use tekton_kueue.Main.Flags.{FlagSet, FlagValue, var, vars}

-- No name is in both sets.
abbrev pub AreApart : FlagSet → FlagSet → Type 0
AreApart xs ys = (k : String) → (lookup xs k ≡ none) ⊎ (lookup ys k ≡ none)

abbrev pub AreDistinct : FlagSet → Type 0
AreDistinct [] = Unit
AreDistinct (row ∷ rows) = AreApart (row ∷ []) rows × AreDistinct rows

pub AreApart-sym : (xs ys : FlagSet) → AreApart xs ys → AreApart ys xs
AreApart-sym xs ys h k = elim (h k) [ inl e ↦ inr e | inr e ↦ inl e ]

lookup-append :
    (xs ys : FlagSet) (k : String) → lookup xs k ≡ none → lookup (xs ++ ys) k ≡ lookup ys k
unfolding lookup
lookup-append [] ys k h = refl
lookup-append ((j, v) ∷ xs) ys k h = elim (Bool-cases (j == k)) [
  | inl e ↦ absurd (some-ne-none (rw e at h))
  | inr e ↦ rw e (lookup-append xs ys k (rw e at h))
]

lookup-append-none :
    (xs ys : FlagSet) (k : String)
    → lookup (xs ++ ys) k ≡ none
    → (lookup xs k ≡ none) × (lookup ys k ≡ none)
unfolding lookup
lookup-append-none [] ys k h = (refl, h)
lookup-append-none ((j, v) ∷ xs) ys k h = elim (Bool-cases (j == k)) [
  | inl e ↦ absurd (some-ne-none (rw e at h))
  | inr e ↦ rw e (lookup-append-none xs ys k (rw e at h))
]

insert_fresh :
    (fs : FlagSet) (k : String) (v : FlagValue)
    → lookup fs k ≡ none
    → insert fs k v ≡ fs ++ ((k, v) ∷ [])
unfolding lookup insert
insert_fresh [] k v h = refl
insert_fresh ((j, w) ∷ fs) k v h = elim (Bool-cases (j == k)) [
  | inl e ↦ absurd (some-ne-none (rw e at h))
  | inr e ↦ rw e (ap (λ l. (j, w) ∷ l) (insert_fresh fs k v (rw e at h)))
]

pub AreApart-append :
    (xs ys zs : FlagSet) → AreApart xs zs → AreApart ys zs → AreApart (xs ++ ys) zs
AreApart-append xs ys zs h g k = elim (h k) [
  | inr e ↦ inr e
  | inl e ↦ elim (g k) [ inr f ↦ inr f | inl f ↦ inl (lookup-append xs ys k e ∙ f) ]
]

pub AreApart-of_append :
    (xs ys zs : FlagSet) → AreApart (xs ++ ys) zs → AreApart xs zs × AreApart ys zs
AreApart-of_append xs ys zs h = (
  λ k. elim (h k) [ inl e ↦ inl ((lookup-append-none xs ys k e).0) | inr e ↦ inr e ],
  λ k. elim (h k) [ inl e ↦ inl ((lookup-append-none xs ys k e).1) | inr e ↦ inr e ],
)

-- It is enough to look up the names of one set in the other.
pub AreApart-of_All : (xs ys : FlagSet) → All (λ row. lookup xs (row.0) ≡ none) ys → AreApart xs ys
unfolding lookup
AreApart-of_All xs [] h k = inr refl
AreApart-of_All xs ((j, v) ∷ ys) (e, h) k = elim (Bool-cases (j == k)) [
  | inl f ↦ inl (ap (lookup xs) (sym ((eq_iff j k).0 f)) ∙ e)
  | inr f ↦ rw f (AreApart-of_All xs ys h k)
]

-- For a known set, the lookups decide.
abbrev pub AreLookedUp : FlagSet → Type 0
AreLookedUp [] = Unit
AreLookedUp (row ∷ rows) = All (λ r. lookup (row ∷ []) (r.0) ≡ none) rows × AreLookedUp rows

pub AreDistinct-of_lookups : (rows : FlagSet) → AreLookedUp rows → AreDistinct rows
AreDistinct-of_lookups [] h = tt
AreDistinct-of_lookups (row ∷ rows) (h, hs) =
    (AreApart-of_All (row ∷ []) rows h, AreDistinct-of_lookups rows hs)

head_fresh :
    (fs : FlagSet) (k : String) (v : FlagValue) (rows : FlagSet)
    → AreApart fs ((k, v) ∷ rows)
    → lookup fs k ≡ none
unfolding lookup
head_fresh fs k v rows h = elim (h k) [
  | inl e ↦ e
  | inr e ↦ absurd (some-ne-none (rw ((eq_iff k k).1 refl) at e))
]

tail_fresh :
    (fs : FlagSet) (k : String) (v : FlagValue) (rows : FlagSet)
    → AreApart ((k, v) ∷ []) rows
    → AreApart fs ((k, v) ∷ rows)
    → AreApart (fs ++ ((k, v) ∷ [])) rows
unfolding lookup
tail_fresh fs k v rows d h j = elim (d j) [
  | inr e ↦ inr e
  | inl e ↦ elim (h j) [
    | inl f ↦ inl (lookup-append fs ((k, v) ∷ []) j f ∙ e)
    | inr f ↦ inr ((lookup-append-none ((k, v) ∷ []) rows j f).1)
  ]
]

pub vars_lem :
    (rows fs : FlagSet) → AreDistinct rows → AreApart fs rows → vars rows fs ≡ some (fs ++ rows)
unfolding vars var bind
vars_lem [] fs d h = ap some (sym (append-nil fs))
vars_lem ((k, v) ∷ rows) fs (d, ds) h =
    let e : lookup fs k ≡ none = head_fresh fs k v rows h in
    rw (vars, var, bind, e, insert_fresh fs k v e)
      (vars_lem rows (fs ++ ((k, v) ∷ [])) ds (tail_fresh fs k v rows d h)
        ∙ ap some (append_assoc fs ((k, v) ∷ []) rows))

-- Flags of a library that defines only those with names that are not defined already.
unfoldable pub register_missing : FlagSet → FlagSet → FlagSet
register_missing [] fs = fs
register_missing ((name, value) ∷ rows) fs =
    register_missing rows (elim (lookup fs name) [ some old ↦ fs | none ↦ insert fs name value ])

pub register_missing_lem :
    (rows fs : FlagSet)
    → AreDistinct rows
    → AreApart fs rows
    → register_missing rows fs ≡ fs ++ rows
unfolding register_missing
register_missing_lem [] fs d h = sym (append-nil fs)
register_missing_lem ((k, v) ∷ rows) fs (d, ds) h =
    let e : lookup fs k ≡ none = head_fresh fs k v rows h in
    rw (register_missing, e, insert_fresh fs k v e)
      (register_missing_lem rows (fs ++ ((k, v) ∷ [])) ds (tail_fresh fs k v rows d h)
        ∙ append_assoc fs ((k, v) ∷ []) rows)

-- A flag of the second set is found in both together.
pub lookup_behind :
    (xs ys : FlagSet) (k : String) {v : FlagValue}
    → AreApart xs ys
    → lookup ys k ≡ some v
    → lookup (xs ++ ys) k ≡ some v
lookup_behind xs ys k h e = elim (h k) [
  | inl f ↦ lookup-append xs ys k f ∙ e
  | inr f ↦ absurd (some-ne-none (sym e ∙ f))
]
