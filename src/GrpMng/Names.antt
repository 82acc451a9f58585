-- ===== src/GrpMng/Names.antt =====
-- `GetAllGroupNames` of grp_mng.c.
use ipc_project.Base.{
  ℕ, suc, ◌+◌, ◌-◌, ◌<◌, ◌≤◌, ◌≡◌, refl, sym, ap, ◌∙◌, subst, inl, inr, true, Bool-cases, Option,
  some, List, [], ◌∷◌, ◌++◌, length, map, drop, All, All-append, arith, length-append, length-drop,
  length-replicate, append_assoc, append-nil, leb, ok, fault, lt→leb, leb→le,
}
use ipc_project.CLib.{Block, Text, IsText, calloc, c_string, strcat, write}
use ipc_project.CLib.Memory.{write-append_rest}
use ipc_project.CLib.Strings.{c_string-append}
use ipc_project.Containers.HashMap.{HashMapLib}
use ipc_project.Containers.Queue.{QueueLib}
use ipc_project.Containers.Vector.{VectorLib, IsLawful}
use ipc_project.GrpMng.Groups.{GrpMng, groupmng_success, codes}
use ipc_project.GrpMng.Groups.Listing.{collect_names, concat_names, get_all_group_names}

-- `strcat` to a string at the head of an array.
strcat-append :
    (t name rest : Block)
    → IsText t
    → length name ≤ length rest
    → (rest' : Block) × (strcat (t ++ (0 ∷ rest)) name ≡ ok ((t ++ name) ++ (0 ∷ rest')))
      × (length rest' ≡ length rest - length name)
unfolding strcat
strcat-append t name rest text room =
    let bytes : Block = name ++ (0 ∷ []) in
    let size : length bytes ≡ suc (length name) = omega (arith, length-append name (0 ∷ [])) in
    let left = drop (length bytes) (0 ∷ rest) in
    (
      left,
      rw (c_string-append t rest text) (
          write-append_rest t (0 ∷ rest) bytes (omega (arith, size))
          ∙ ap ok (
              ap (◌++◌ t) (append_assoc name (0 ∷ []) left)
              ∙ sym (append_assoc t name (0 ∷ left)))),
      omega (arith, length-drop (length bytes) (0 ∷ rest), size),
    )

-- With too little room it writes beyond the end.
strcat-overflow :
    (t name rest : Block)
    → IsText t
    → length rest < length name
    → strcat (t ++ (0 ∷ rest)) name ≡ fault
unfolding strcat write
strcat-overflow t name rest text short =
    let over : length (t ++ (0 ∷ rest)) < length t + length (name ++ (0 ∷ [])) =
      omega (arith, length-append t (0 ∷ rest), length-append name (0 ∷ [])) in
    rw
      (
        c_string-append t rest text,
        lt→leb (length t + length (name ++ (0 ∷ []))) (length (t ++ (0 ∷ rest))) over,
      )
      refl

-- The names, each with a comma and a blank behind it.
abbrev pub joined : List Text → Text
joined [] = []
joined (name ∷ names) = name ++ (codes ", " ++ joined names)

module _ (L : HashMapLib) (Q : QueueLib) (W : VectorLib) where
  concat_names-joined :
      (names : List Text) (t rest : Block)
      → IsText t
      → All IsText names
      → length (joined names) ≤ length rest
      → (rest' : Block) × (concat_names L Q W names (t ++ (0 ∷ rest))
          ≡ ok ((t ++ joined names) ++ (0 ∷ rest')))
        × IsText (t ++ joined names)
  unfolding concat_names
  concat_names-joined [] t rest text all room = (
    rest,
    ap (λ (x : Block). ok (x ++ (0 ∷ rest))) (sym (append-nil t)),
    subst IsText (sym (append-nil t)) text,
  )
  concat_names-joined (name ∷ names) t rest text (first, others) room =
      let comma : Block = codes ", " in
      let total : length (joined (name ∷ names)) ≡ length name + (2 + length (joined names)) =
        omega (arith, length-append name (comma ++ joined names)) in
      let (r1, e1, s1) = strcat-append t name rest text (omega (arith, total, room)) in
      let text1 : IsText (t ++ name) = All-append _ t name text first in
      let (r2, e2, s2) =
        strcat-append (t ++ name) comma r1 text1 (omega (arith, total, room, s1)) in
      let text2 : IsText ((t ++ name) ++ comma) =
        All-append _ (t ++ name) comma text1 (omega arith, (omega arith, tt)) in
      let (r3, e3, text3) =
        concat_names-joined names ((t ++ name) ++ comma) r2 text2 others
          (omega (arith, total, room, s1, s2)) in
      let whole : ((t ++ name) ++ comma) ++ joined names ≡ t ++ joined (name ∷ names) =
        append_assoc (t ++ name) comma (joined names)
        ∙ append_assoc t name (comma ++ joined names) in
      (
        r3,
        rw (e1, e2) (e3 ∙ ap (λ (x : Block). ok (x ++ (0 ∷ r3))) whole),
        subst IsText whole text3,
      )

  concat_names-overflow :
      (names : List Text) (t rest : Block)
      → IsText t
      → All IsText names
      → length rest < length (joined names)
      → concat_names L Q W names (t ++ (0 ∷ rest)) ≡ fault
  unfolding concat_names
  concat_names-overflow [] t rest text all short = elim short [ ]
  concat_names-overflow (name ∷ names) t rest text (first, others) short =
      let comma : Block = codes ", " in
      let total : length (joined (name ∷ names)) ≡ length name + (2 + length (joined names)) =
        omega (arith, length-append name (comma ++ joined names)) in
      let text1 : IsText (t ++ name) = All-append _ t name text first in
      elim (Bool-cases (leb (length name) (length rest))) [
        | inr small ↦ rw (strcat-overflow t name rest text (ground arith)) refl
        | inl fits ↦
            let (r1, e1, s1) = strcat-append t name rest text (ground arith) in
            elim (Bool-cases (leb 2 (length r1))) [
              | inr small ↦ rw (e1, strcat-overflow (t ++ name) comma r1 text1 (ground arith)) refl
              | inl fits2 ↦
                  let (r2, e2, s2) = strcat-append (t ++ name) comma r1 text1 (ground arith) in
                  let text2 : IsText ((t ++ name) ++ comma) =
                    All-append _ (t ++ name) comma text1 (omega arith, (omega arith, tt)) in
                  let room : length rest - length name - 2 < length (joined names) = omega (
                    arith,
                    total,
                    short,
                    s1,
                    leb→le (length name) (length rest) fits,
                    leb→le 2 (length r1) fits2,
                  ) in
                  rw (e1, e2)
                    (concat_names-overflow names ((t ++ name) ++ comma) r2 text2 others
                      (omega (arith, s1, s2, room)))
            ]
      ]

  collect_names-keys :
      (V : IsLawful W) (es : List (Text × Option ℕ)) (w : W.Vector Text)
      → length (W.items Text w) + length es ≤ W.capacity Text w
      → W.items Text (collect_names L Q W es w) ≡ W.items Text w ++ map (λ e. e.0) es
  unfolding collect_names
  collect_names-keys V [] w room = sym (append-nil (W.items Text w))
  collect_names-keys V ((key, pointer) ∷ es) w room =
      let (w', added, items, capacity) = V.append_room Text w key (omega (arith, room)) in
      let room' : length (W.items Text w') + length es ≤ W.capacity Text w' =
        omega
          (arith, room, capacity, ap length items ∙ length-append (W.items Text w) (key ∷ [])) in
      rw added (
        collect_names-keys V es w' room'
        ∙ ap (λ (x : List Text). x ++ map (λ e. e.0) es) items
        ∙ append_assoc (W.items Text w) (key ∷ []) (map (λ e. e.0) es))

  module _ (V : IsLawful W) (m : GrpMng L Q) (few : length (L.entries (Option ℕ) m.group_map) ≤ 100)
      (texts : All IsText (map (λ e. e.0) (L.entries (Option ℕ) m.group_map))) where
    -- The names of all groups.
    abbrev pub all_names : List Text
    all_names = map (λ e. e.0) (L.entries (Option ℕ) m.group_map)

    collected :
        W.items Text (collect_names L Q W (L.entries (Option ℕ) m.group_map) (W.create Text 100))
        ≡ all_names
    collected =
        collect_names-keys V (L.entries (Option ℕ) m.group_map) (W.create Text 100)
          (omega (arith, few, V.capacity-create Text 100, ap length (V.items-create Text 100)))
        ∙ ap (λ (x : List Text). x ++ all_names) (V.items-create Text 100)

    -- With at most a hundred groups, whose names are strings, the zeroed array of 1000 bytes holds all
    -- names afterwards, each with a comma and a blank behind it, if they take at most 999 characters
    -- so.
    pub get_all_group_names-joined :
        length (joined all_names) < 1000
        → (out : Block) × (get_all_group_names L Q W true (some m) (calloc 1000)
            ≡ ok (groupmng_success, out))
          × (c_string out ≡ ok (joined all_names))
    unfolding get_all_group_names
    get_all_group_names-joined fits =
        let size : length (calloc 999) ≡ 999 = length-replicate {A = ℕ} 999 0 in
        let (rest, ran, text) =
          concat_names-joined all_names [] (calloc 999) tt texts (omega (arith, size, fits)) in
        (
          joined all_names ++ (0 ∷ rest),
          rw (collected, ran) refl,
          c_string-append (joined all_names) rest text,
        )

    -- With at most a hundred groups, whose names are strings and take 1000 characters or more with a
    -- comma and a blank behind each, the call writes beyond the array of 1000 bytes.
    pub get_all_group_names-overflow :
        1000 ≤ length (joined all_names)
        → get_all_group_names L Q W true (some m) (calloc 1000) ≡ fault
    unfolding get_all_group_names
    get_all_group_names-overflow more =
        let size : length (calloc 999) ≡ 999 = length-replicate {A = ℕ} 999 0 in
        let over =
          concat_names-overflow all_names [] (calloc 999) tt texts (omega (arith, size, more)) in
        rw (collected, over) refl
