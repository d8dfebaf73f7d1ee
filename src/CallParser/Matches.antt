-- ===== src/CallParser/Matches.antt =====
-- callparser.go: the matches that the loop of ExtractExactlyOne puts together by their ids.
use mathlib.Core.List.{append-nil, append_assoc}
use toolsy.Prelude.{
  ◌≤◌, ◌<◌, true, false, List, [], ◌∷◌, ◌++◌, ◌≡◌, inl, inr, refl, sym, ◌∙◌, ap, arith, length,
  is_empty, All, Bool-cases,
}
use toolsy.Bytes.{Bytes, same_bytes, same_bytes→eq, trim_space}
use toolsy.CallParser.{ContentPart, find_id, put_id}
use toolsy.CallParser.Calls.{group_matches, add_match, text_of}

put_id-longer :
    {A : Type 0} (m : List (Bytes × A)) (id : Bytes) (a : A) → length m ≤ length (put_id m id a)
unfolding put_id
put_id-longer [] id a = omega arith
put_id-longer ((k, b) ∷ m) id a = ground (arith, put_id-longer m id a)

put_id-full : {A : Type 0} (m : List (Bytes × A)) (id : Bytes) (a : A) → 0 < length (put_id m id a)
unfolding put_id
put_id-full [] id a = omega arith
put_id-full ((k, b) ∷ m) id a = ground arith

pub group_matches-longer :
    (m : List (Bytes × Bytes)) (ps : List ContentPart) → length m ≤ length (group_matches m ps).0
unfolding group_matches
group_matches-longer m [] = omega arith
group_matches-longer m (p ∷ ps) = elim (Bool-cases (is_empty (trim_space p.tool_call_id))) [
  | inl h ↦ rw h (group_matches-longer m ps)
  | inr h ↦ rw h (
      omega (
        arith,
        put_id-longer m (trim_space p.tool_call_id)
            (text_of (find_id m (trim_space p.tool_call_id)) ++ p.args ++ p.args_chunk),
        group_matches-longer (add_match m p) ps,
      ))
]

-- The arguments of parts of one call, put together.
abbrev pub joined : List ContentPart → Bytes
joined [] = []
joined (p ∷ ps) = (p.args ++ p.args_chunk) ++ joined ps

abbrev pub HasId : Bytes → ContentPart → Type 0
HasId id p = trim_space p.tool_call_id ≡ id

pub is_empty→eq : (bs : Bytes) → is_empty bs ≡ true → bs ≡ []
is_empty→eq [] h = refl
is_empty→eq (b ∷ bs) h = absurd (cc)

pub group_matches-nameless :
    (m : List (Bytes × Bytes)) (ps : List ContentPart)
    → (group_matches m ps).0 ≡ []
    → ((group_matches m ps).1 ≡ ps) × All (HasId []) ps
unfolding group_matches
group_matches-nameless m [] h = (refl, tt)
group_matches-nameless m (p ∷ ps) h = elim (Bool-cases (is_empty (trim_space p.tool_call_id))) [
  | inl e ↦
      let (same, all) = group_matches-nameless m ps (rw (group_matches, e) at h) in
      rw (group_matches, e, same) (refl, (is_empty→eq (trim_space p.tool_call_id) e, all))
  | inr e ↦
      let none_left : (group_matches (add_match m p) ps).0 ≡ [] = rw (group_matches, e) at h in
      absurd (
        ground (
          arith,
          ap length none_left,
          put_id-full m (trim_space p.tool_call_id)
              (text_of (find_id m (trim_space p.tool_call_id)) ++ p.args ++ p.args_chunk),
          group_matches-longer (add_match m p) ps,
        ))
]

regrouped : (a b c d : Bytes) → a ++ b ++ c ++ d ≡ a ++ ((b ++ c) ++ d)
regrouped a b c d = rw (append_assoc a b c) (append_assoc a (b ++ c) d)

add_match-same :
    (id a : Bytes) (p : ContentPart)
    → same_bytes id (trim_space p.tool_call_id) ≡ true
    → add_match ((id, a) ∷ []) p ≡ (id, a ++ p.args ++ p.args_chunk) ∷ []
unfolding put_id find_id
add_match-same id a p d = rw d

length-add_match_other :
    (id a : Bytes) (p : ContentPart)
    → same_bytes id (trim_space p.tool_call_id) ≡ false
    → length (add_match ((id, a) ∷ []) p) ≡ 2
unfolding put_id find_id
length-add_match_other id a p d = rw d

pub group_matches-one :
    (id a k args : Bytes) (ps : List ContentPart)
    → (group_matches ((id, a) ∷ []) ps).0 ≡ (k, args) ∷ []
    → (group_matches ((id, a) ∷ []) ps).1 ≡ []
    → (k ≡ id) × All (HasId id) ps × (args ≡ a ++ joined ps)
unfolding group_matches
group_matches-one id a k args [] h n = (cc, tt, rw append-nil (cc))
group_matches-one id a k args (p ∷ ps) h n =
    elim (Bool-cases (is_empty (trim_space p.tool_call_id))) [
      | inl e ↦ absurd (cc (rw (group_matches, e) at n))
      | inr e ↦ elim (Bool-cases (same_bytes id (trim_space p.tool_call_id))) [
        | inr d ↦ absurd (
            ground (
              arith,
              ap length (
                  let only : (group_matches (add_match ((id, a) ∷ []) p) ps).0 ≡ (k, args) ∷ [] =
                    rw (group_matches, e) at h in
                  only),
              length-add_match_other id a p d,
              group_matches-longer (add_match ((id, a) ∷ []) p) ps,
            ))
        | inl d ↦
            let same = same_bytes→eq id (trim_space p.tool_call_id) d in
            let (key, all, text) =
              group_matches-one id (a ++ p.args ++ p.args_chunk) k args ps
                (rw (group_matches, e, add_match-same id a p d) at h)
                (rw (group_matches, e, add_match-same id a p d) at n) in
            (key, (sym same, all), text ∙ regrouped a p.args p.args_chunk (joined ps))
      ]
    ]
