-- ===== src/Capabilities/Resolver.antt =====
-- capabilities/resolver.py: the tools of a turn. The coding capabilities of capabilities/coding.py are a
-- parameter, and of a tool only what the resolver reads is named.
use decode.Prelude.{
  ◌≡◌, refl, ◌∙◌, subst, String, Bool, true, false, ◌||◌, Option, none, some, List, [], ◌∷◌, ◌++◌,
  keep, str_eq, eq_iff, mem, is_empty, arith, if◌then◌else◌, inl, inr, Bool-cases,
}
use decode.Values.{Value}
use decode.Capabilities.Registry.{TaskMode, has_coding, has_skills, general_skill_categories}

pub record Tool : Type 0 where
  pub name : String
  pub category : String
  pub rest : Value

-- Tools without a name, and with a name that was seen, go.
unfoldable pub unique_from : List String → List Tool → List Tool
unique_from seen [] = []
unique_from seen (t ∷ ts) = elim (is_empty t.name || mem t.name seen) [
  | true ↦ unique_from seen ts
  | false ↦ t ∷ unique_from (t.name ∷ seen) ts
]

abbrev pub or_default : Option Bool → Bool → Bool
or_default none b = b
or_default (some a) b = a

-- what is added to the host's tools
abbrev pub added : TaskMode → List Tool → List Tool → Option Bool → Option Bool → List Tool
added mode coding_tools skill_tools include_coding include_skills =
    (if or_default include_coding (has_coding mode) then coding_tools else [])
    ++ (if or_default include_skills (has_skills mode)
        then skill_tools
        else keep (λ (t : Tool). mem t.category general_skill_categories) skill_tools)

abbrev pub offered :
    TaskMode → List Tool → List Tool → List Tool → Option Bool → Option Bool → List Tool
offered mode coding_tools host_tools skill_tools include_coding include_skills =
    host_tools ++ added mode coding_tools skill_tools include_coding include_skills

unfoldable pub resolve_tools :
    TaskMode → List Tool → List Tool → List Tool → Option Bool → Option Bool → List Tool
unfolding unique_from
resolve_tools mode coding_tools host_tools skill_tools include_coding include_skills =
    unique_from [] (offered mode coding_tools host_tools skill_tools include_coding include_skills)

-- the first tool with the name
abbrev pub find_tool : String → List Tool → Option Tool
find_tool name [] = none
find_tool name (t ∷ ts) = if str_eq t.name name then some t else find_tool name ts

-- No name is empty, or in `seen`, or there twice.
abbrev pub Distinct : List String → List Tool → Type 0
Distinct seen [] = Unit
Distinct seen (t ∷ ts) =
    (is_empty t.name ≡ false) × (mem t.name seen ≡ false) × Distinct (t.name ∷ seen) ts

unique_from-Distinct : (seen : List String) (ts : List Tool) → Distinct seen (unique_from seen ts)
unfolding unique_from
unique_from-Distinct seen [] = tt
unique_from-Distinct seen (t ∷ ts) = elim (Bool-cases (is_empty t.name || mem t.name seen)) [
  | inl e ↦ rw (unique_from, e) (unique_from-Distinct seen ts)
  | inr e ↦
      rw (unique_from, e) (ground arith, ground arith, unique_from-Distinct (t.name ∷ seen) ts)
]

find_tool-append :
    (name : String) (xs ys : List Tool) (t : Tool)
    → find_tool name xs ≡ some t
    → find_tool name (xs ++ ys) ≡ some t
find_tool-append name [] ys t e = cc
find_tool-append name (x ∷ xs) ys t e = ground (arith, find_tool-append name xs ys t)

gone :
    (n name : String) (seen : List String)
    → (is_empty n || mem n seen) ≡ true
    → is_empty name ≡ false
    → mem name seen ≡ false
    → str_eq n name ≡ false
gone n name seen e full new = elim (Bool-cases (str_eq n name)) [
  | inl same ↦
      let e' =
        subst (λ (x : String). (is_empty x || mem x seen) ≡ true) ((eq_iff n name).0 same) e in
      absurd (ground (arith, e'))
  | inr other ↦ other
]

fresh_behind :
    (n name : String) (seen : List String)
    → str_eq n name ≡ false
    → mem name seen ≡ false
    → mem name (n ∷ seen) ≡ false
fresh_behind n name seen other new = ground (arith, eq_iff n name, eq_iff name n)

find_tool-unique_from :
    (name : String) (seen : List String) (ts : List Tool)
    → is_empty name ≡ false
    → mem name seen ≡ false
    → find_tool name (unique_from seen ts) ≡ find_tool name ts
unfolding unique_from
find_tool-unique_from name seen [] full new = refl
find_tool-unique_from name seen (t ∷ ts) full new =
    elim (Bool-cases (is_empty t.name || mem t.name seen)) [
      | inl e ↦
          rw (unique_from, e, gone t.name name seen e full new)
            (find_tool-unique_from name seen ts full new)
      | inr e ↦ elim (Bool-cases (str_eq t.name name)) [
        | inl same ↦ rw (unique_from, e, same) refl
        | inr other ↦
            rw (unique_from, e, other)
              (find_tool-unique_from name (t.name ∷ seen) ts full
                (fresh_behind t.name name seen other new))
      ]
    ]

-- The tools of a turn have nonempty, distinct names.
pub resolve_tools-Distinct :
    (mode : TaskMode) (coding_tools host_tools skill_tools : List Tool)
    (include_coding include_skills : Option Bool)
    → Distinct []
        (resolve_tools mode coding_tools host_tools skill_tools include_coding include_skills)
unfolding resolve_tools
resolve_tools-Distinct mode coding_tools host_tools skill_tools include_coding include_skills =
    unique_from-Distinct []
      (offered mode coding_tools host_tools skill_tools include_coding include_skills)

-- A host tool with a nonempty name is the tool of that name in every turn, unless an earlier host tool has the
-- name: other tools do not displace it.
pub find_tool-resolve_tools :
    (mode : TaskMode) (coding_tools host_tools skill_tools : List Tool)
    (include_coding include_skills : Option Bool) (name : String) (t : Tool)
    → is_empty name ≡ false
    → find_tool name host_tools ≡ some t
    → find_tool name
        (resolve_tools mode coding_tools host_tools skill_tools include_coding include_skills)
      ≡ some t
unfolding resolve_tools
find_tool-resolve_tools mode coding_tools host_tools skill_tools include_coding include_skills name
      t full e =
    find_tool-unique_from name []
      (offered mode coding_tools host_tools skill_tools include_coding include_skills) full refl
    ∙ find_tool-append name host_tools
        (added mode coding_tools skill_tools include_coding include_skills) t e
