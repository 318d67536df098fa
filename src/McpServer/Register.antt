-- ===== src/McpServer/Register.antt =====
-- `Register` and `listResult` of mcpserver/server.go: the tools that a client is shown.
use mathlib.Core.List.{foldl}
use flynn_extensions.Prelude.{
  ◌≡◌, ◌⊎◌, refl, ap, subst, ◌∙◌, false, false, Bool-cases, inl, inr, if◌then◌else◌, Option, none,
  some, List, [], ◌∷◌, ◌++◌, map, arith, Bytes, equal, equal_iff, equal_self,
}
use flynn_extensions.McpServer.{
  Tool, Server, lookup, put, new, register, list_tools, list_result, default_schema, info_of,
}

module _ {S E : Type 0} where
  abbrev name_of : Tool S E → Bytes
  name_of t = t.info.name

  -- The specification: the tools in the order of their first registration, each as registered last.
  unfoldable pub upsert : List (Tool S E) → Tool S E → List (Tool S E)
  upsert [] t = t ∷ []
  upsert (u ∷ us) t = if equal u.info.name t.info.name then t ∷ us else u ∷ upsert us t

  -- The map and the order that stand for a list of tools.
  abbrev named : Tool S E → Bytes × Tool S E
  named t = (t.info.name, t)

  abbrev IsOf : List (Tool S E) → Server S E → Type 0
  IsOf ts s = (s.order ≡ map name_of ts) × (s.tools ≡ map named ts)

  put-upsert :
      (t : Tool S E) (ts : List (Tool S E))
      → put t.info.name t (map named ts) ≡ map named (upsert ts t)
  unfolding put upsert
  put-upsert t [] = refl
  put-upsert t (u ∷ us) = ground (arith, put-upsert t us)

  abbrev order_after : Tool S E → List (Tool S E) → Option (Tool S E) → List Bytes
  order_after t ts none = map name_of ts ++ t.info.name ∷ []
  order_after t ts (some u) = map name_of ts

  order_after-cons :
      (t u : Tool S E) (us : List (Tool S E)) (o : Option (Tool S E))
      → order_after t (u ∷ us) o ≡ u.info.name ∷ order_after t us o
  order_after-cons t u us none = refl
  order_after-cons t u us (some x) = refl

  order-upsert :
      (t : Tool S E) (ts : List (Tool S E))
      → order_after t ts (lookup t.info.name (map named ts)) ≡ map name_of (upsert ts t)
  unfolding lookup upsert
  order-upsert t [] = refl
  order-upsert t (u ∷ us) = elim (Bool-cases (equal u.info.name t.info.name)) [
    | inl same ↦ rw same (ap (λ n. n ∷ map name_of us) ((equal_iff u.info.name t.info.name).0 same))
    | inr other ↦ rw other (
        order_after-cons t u us (lookup t.info.name (map named us))
        ∙ ap (◌∷◌ u.info.name) (order-upsert t us))
  ]

  order-register :
      (s : Server S E) (t : Tool S E) (ts : List (Tool S E))
      → IsOf ts s
      → (register s t).order ≡ order_after t ts (lookup t.info.name (map named ts))
  unfolding register
  order-register s t ts (order, tools) =
      rw (order, tools) (by_case (lookup t.info.name (map named ts)))
    where
      by_case :
          (o : Option (Tool S E))
          → elim o [ none ↦ map name_of ts ++ t.info.name ∷ [] | some u ↦ map name_of ts ]
            ≡ order_after t ts o
      by_case none = refl
      by_case (some u) = refl

  register-IsOf :
      (s : Server S E) (t : Tool S E) (ts : List (Tool S E))
      → IsOf ts s
      → IsOf (upsert ts t) (register s t)
  unfolding register
  register-IsOf s t ts h =
      (order-register s t ts h ∙ order-upsert t ts, ap (put t.info.name t) h.1 ∙ put-upsert t ts)

  registered-IsOf :
      (new_tools : List (Tool S E)) (s : Server S E) (ts : List (Tool S E))
      → IsOf ts s
      → IsOf (foldl upsert ts new_tools) (foldl register s new_tools)
  registered-IsOf [] s ts h = h
  registered-IsOf (t ∷ new_tools) s ts h =
      registered-IsOf new_tools (register s t) (upsert ts t) (register-IsOf s t ts h)

  -- A list whose names are all different.
  abbrev Fresh : Bytes → List (Tool S E) → Type 0
  Fresh n [] = Unit
  Fresh n (t ∷ ts) = (equal n t.info.name ≡ false) × Fresh n ts

  abbrev IsDistinct : List (Tool S E) → Type 0
  IsDistinct [] = Unit
  IsDistinct (t ∷ ts) = Fresh t.info.name ts × IsDistinct ts

  Fresh-upsert :
      (n : Bytes) (t : Tool S E) (ts : List (Tool S E))
      → Fresh n ts
      → equal n t.info.name ≡ false
      → Fresh n (upsert ts t)
  unfolding upsert
  Fresh-upsert n t [] h e = (e, tt)
  Fresh-upsert n t (u ∷ us) h e = elim (Bool-cases (equal u.info.name t.info.name)) [
    | inl same ↦ rw same (e, h.1)
    | inr other ↦ rw other (h.0, Fresh-upsert n t us h.1 e)
  ]

  IsDistinct-upsert :
      (t : Tool S E) (ts : List (Tool S E)) → IsDistinct ts → IsDistinct (upsert ts t)
  unfolding upsert
  IsDistinct-upsert t [] h = (tt, tt)
  IsDistinct-upsert t (u ∷ us) h = elim (Bool-cases (equal u.info.name t.info.name)) [
    | inl same ↦
        rw same (subst (λ n. Fresh n us) ((equal_iff u.info.name t.info.name).0 same) h.0, h.1)
    | inr other ↦ rw other (Fresh-upsert u.info.name t us h.0 other, IsDistinct-upsert t us h.1)
  ]

  IsDistinct-all :
      (new_tools ts : List (Tool S E)) → IsDistinct ts → IsDistinct (foldl upsert ts new_tools)
  IsDistinct-all [] ts h = h
  IsDistinct-all (t ∷ new_tools) ts h =
      IsDistinct-all new_tools (upsert ts t) (IsDistinct-upsert t ts h)

  list_tools-Fresh :
      (t : Tool S E) (m : List (Bytes × Tool S E)) (ts : List (Tool S E))
      → Fresh t.info.name ts
      → list_tools ((t.info.name, t) ∷ m) (map name_of ts) ≡ list_tools m (map name_of ts)
  unfolding list_tools lookup
  list_tools-Fresh t m [] h = refl
  list_tools-Fresh t m (u ∷ us) h =
      rw h.0
        (ap (◌∷◌ (default_schema (info_of (lookup u.info.name m)))) (list_tools-Fresh t m us h.1))

  list_tools-distinct :
      (ts : List (Tool S E))
      → IsDistinct ts
      → list_tools (map named ts) (map name_of ts) ≡ map (λ t. default_schema t.info) ts
  unfolding list_tools lookup
  list_tools-distinct [] h = refl
  list_tools-distinct (t ∷ ts) h = rw equal_self (
      ap (◌∷◌ (default_schema t.info))
        (list_tools-Fresh t (map named ts) ts h.0 ∙ list_tools-distinct ts h.1))

  -- After any sequence of registrations on a new server, tools/list shows each name once, in the
  -- order of the first registrations, with the tool that was registered under it last.
  pub list_result-registered :
      (name version : Bytes) (tools : List (Tool S E))
      → list_result (foldl register (new name version) tools)
        ≡ map (λ t. default_schema t.info) (foldl upsert [] tools)
  unfolding list_result
  list_result-registered name version tools =
      let (order, map_of) = registered-IsOf tools (new name version) [] (refl, refl) in
      rw (order, map_of) (list_tools-distinct (foldl upsert [] tools) (IsDistinct-all tools [] tt))

  lookup-put :
      (k name : Bytes) (t : Tool S E) (m : List (Bytes × Tool S E)) {u : Tool S E}
      → lookup name (put k t m) ≡ some u
      → (t ≡ u) ⊎ (lookup name m ≡ some u)
  unfolding lookup put
  lookup-put k name t [] e = ground arith
  lookup-put k name t ((j, v) ∷ m) e = elim (Bool-cases (equal j k)) [
    | inl same ↦ elim (Bool-cases (equal k name)) [
      | inl found ↦ inl (let now = rw (same, found) at e in cc)
      | inr other ↦ inr (rw ((equal_iff j k).0 same, other) (rw (same, other) at e))
    ]
    | inr differ ↦ elim (Bool-cases (equal j name)) [
      | inl found ↦ inr (rw found (rw (differ, found) at e))
      | inr other ↦ rw other (lookup-put k name t m (rw (differ, other) at e))
    ]
  ]

  -- A registration adds no tool but its own.
  pub lookup-register :
      (s : Server S E) (added : Tool S E) (name : Bytes) {tool : Tool S E}
      → lookup name (register s added).tools ≡ some tool
      → (added ≡ tool) ⊎ (lookup name s.tools ≡ some tool)
  unfolding register
  lookup-register s added name e = lookup-put added.info.name name added s.tools e
