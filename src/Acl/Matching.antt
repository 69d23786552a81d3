-- ===== src/Acl/Matching.antt =====
-- `match_pattern` against a relation on segments.
use sodp.Base.{
  String, ◌≡◌, ◌≢◌, ◌↔◌, refl, subst, Option, none, some, List, [], ◌∷◌, arith, str_eq, eq_iff,
  Bool-cases, inl, inr,
}
use sodp.Base.Text.{split}
use sodp.Acl.{match_segments, match_pattern, dot}

-- `Matches ps ks c r`: the pattern's segments `ps` match the key's `ks`, and the capture goes from
-- `c` to `r`. A star takes all segments that are left, one at least; the last `{sub}` counts.
pub data Matches : List String → List String → Option String → Option String → Type 0 where
  done : {c : Option String} → Matches [] [] c c
  star :
      {ps ks : List String} {k p : String} {c : Option String}
      → p ≡ "*"
      → Matches (p ∷ ps) (k ∷ ks) c c
  capture :
      {ps ks : List String} {k p : String} {c r : Option String}
      → p ≡ "{sub}"
      → Matches ps ks (some k) r
      → Matches (p ∷ ps) (k ∷ ks) c r
  literal :
      {ps ks : List String} {k p : String} {c r : Option String}
      → p ≢ "*"
      → p ≢ "{sub}"
      → k ≡ p
      → Matches ps ks c r
      → Matches (p ∷ ps) (k ∷ ks) c r

complete :
    {ps ks : List String} {c r : Option String}
    → Matches ps ks c r
    → match_segments ps ks c ≡ some r
unfolding match_segments
complete done = refl
complete (star e) = rw e
complete (capture e m) = rw e (complete m)
complete (literal {k = k} {p = p} a b e m) =
    ground (arith, eq_iff p "*", eq_iff p "{sub}", eq_iff k p, complete m)

done_at : {c r : Option String} → c ≡ r → Matches [] [] c r
done_at {c} e = subst (Matches [] [] c) e done

star_at :
    {ps ks : List String} {k p : String} {c r : Option String}
    → p ≡ "*"
    → c ≡ r
    → Matches (p ∷ ps) (k ∷ ks) c r
star_at {ps} {ks} {k} {p} {c} e f = subst (Matches (p ∷ ps) (k ∷ ks) c) f (star e)

sound :
    (ps ks : List String) (c r : Option String)
    → match_segments ps ks c ≡ some r
    → Matches ps ks c r
unfolding match_segments
sound [] [] c r h = done_at (ground arith)
sound [] (k ∷ ks) c r h = ground arith
sound (p ∷ ps) [] c r h = ground arith
sound (p ∷ ps) (k ∷ ks) c r h = elim (Bool-cases (str_eq p "*")) [
  | inl is_star ↦ star_at ((eq_iff p "*").0 is_star) (ground arith)
  | inr not_star ↦ elim (Bool-cases (str_eq p "{sub}")) [
    | inl is_sub ↦ capture ((eq_iff p "{sub}").0 is_sub) (sound ps ks (some k) r (ground arith))
    | inr not_sub ↦ elim (Bool-cases (str_eq k p)) [
      | inl same ↦
          literal (ground (arith, eq_iff p "*")) (ground (arith, eq_iff p "{sub}"))
            ((eq_iff k p).0 same) (sound ps ks c r (ground arith))
      | inr differ ↦ ground arith
    ]
  ]
]

-- A pattern matches a key with a capture exactly when its segments do, by the relation `Matches`.
pub match_pattern_iff :
    (pattern_text key : String) (captured : Option String)
    → (match_pattern pattern_text key ≡ some captured)
      ↔ Matches (split dot pattern_text) (split dot key) none captured
unfolding match_pattern
match_pattern_iff pattern_text key captured = (sound _ _ none captured, complete)
