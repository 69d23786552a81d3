-- ===== src/Middleware/Globs.antt =====
-- What a glob matches, and what the placeholder of a rule comes to.
use sodp.Base.{
  String, ◌≡◌, ◌↔◌, refl, sym, ◌∙◌, ap, subst, ◌<◌, Bool, true, false, ◌⊎◌, inl, inr, Option, none,
  some, arith, ltb, ◌==◌, ==_iff, Bool-cases, none-ne-some,
}
use sodp.Base.Text.{◌⧺◌, ⧺-nil}
use Prim.Native.Char.{Char, code}
use text.Mathlib.TextEquality.{Char-path}
use sodp.Middleware.Acl.{glob_match, try_suffixes, star, ascii_bound}

-- A star stands for any text, any other character for itself.
unfoldable pub Fits : String → String → Type 0
Fits s String.[] = s ≡ String.[]
Fits s (String.◌∷◌ pc pattern) = elim (code pc == star) [
  | true ↦ (u t : String) × (s ≡ u ⧺ t) × Fits t pattern
  | false ↦ (t : String) × (s ≡ String.◌∷◌ pc t) × Fits t pattern
]

unfoldable pub IsAscii : String → Type 0
IsAscii String.[] = Unit
IsAscii (String.◌∷◌ c s) = (code c < ascii_bound) × IsAscii s

-- Some text that is left over at the end of `s`.
abbrev Tail : (String → Type 0) → String → Type 0
Tail P s = (u t : String) × (s ≡ u ⧺ t) × P t

-- A run that returns tells whether `P`, and over ASCII text it returns.
record Decides (r : Option Bool) (s : String) (P : Type 0) : Type 0 where
  returns : IsAscii s → (b : Bool) × (r ≡ some b)
  sound : r ≡ some true → P
  complete : r ≡ some false → ¬ P

Tail-cases :
    (P : String → Type 0) (c : Char) (s : String)
    → Tail P (String.◌∷◌ c s)
    → P (String.◌∷◌ c s) ⊎ Tail P s
Tail-cases P c s (String.[], t, e, p) = inl (subst P (sym e) p)
Tail-cases P c s (String.◌∷◌ d u, t, e, p) = inr (u, t, cc, p)

Tail-empty : (P : String → Type 0) → Tail P "" → P ""
Tail-empty P (String.[], t, e, p) = subst P (sym e) p
Tail-empty P (String.◌∷◌ d u, t, e, p) = cc

not_both : {b c : Bool} {r : Option Bool} → r ≡ some b → r ≡ some c → b ≡ c
not_both p q = cc

step_Decides :
    (matches : String → Option Bool) (P : String → Type 0) (c : Char) (s : String)
    → Decides (matches (String.◌∷◌ c s)) (String.◌∷◌ c s) (P (String.◌∷◌ c s))
    → Decides (try_suffixes matches s) s (Tail P s)
    → (o : Option Bool) → matches (String.◌∷◌ c s) ≡ o
    → Decides (try_suffixes matches (String.◌∷◌ c s)) (String.◌∷◌ c s) (Tail P (String.◌∷◌ c s))
unfolding try_suffixes IsAscii
step_Decides matches P c s h t none e =
    rw (e, try_suffixes)
      (record {
        returns = λ a. ground (arith, h.returns a);
        sound = λ q. absurd (none-ne-some _ q);
        complete = λ q. absurd (none-ne-some _ q);
      })
step_Decides matches P c s h t (some true) e =
    rw (e, try_suffixes)
      (record {
        returns = λ a. (true, refl);
        sound = λ q. ("", String.◌∷◌ c s, refl, h.sound e);
        complete = λ q. cc;
      })
step_Decides matches P c s h t (some false) e = elim (Bool-cases (ltb (code c) ascii_bound)) [
  | inl ascii ↦
      rw (e, try_suffixes)
        (rw ascii (record {
          returns = λ a. t.returns a.1;
          sound =
              λ q. let (u, r, eq, p) = t.sound q in (String.◌∷◌ c u, r, ap (String.◌∷◌ c) eq, p);
          complete = λ q w. elim (Tail-cases P c s w) [
            | inl now ↦ h.complete e now
            | inr later ↦ t.complete q later
          ];
        }))
  | inr wide ↦
      rw (e, try_suffixes)
        (rw wide (record {
          returns = λ a. ground (arith, a.0);
          sound = λ q. absurd (none-ne-some _ q);
          complete = λ q. absurd (none-ne-some _ q);
        }))
]

try_suffixes-Decides :
    (matches : String → Option Bool) (P : String → Type 0)
    → ((t : String) → Decides (matches t) t (P t))
    → (s : String) → Decides (try_suffixes matches s) s (Tail P s)
unfolding try_suffixes
try_suffixes-Decides matches P d String.[] = record {
  returns = (d "").returns;
  sound = λ q. ("", "", refl, (d "").sound q);
  complete = λ q w. (d "").complete q (Tail-empty P w);
}
try_suffixes-Decides matches P d (String.◌∷◌ c s) =
    step_Decides matches P c s (d (String.◌∷◌ c s)) (try_suffixes-Decides matches P d s) _ refl

same_char :
    (sc pc : Char) (rest pattern : String)
    → code sc ≡ code pc
    → Decides (glob_match rest pattern) rest (Fits rest pattern)
    → Decides
        (glob_match rest pattern)
        (String.◌∷◌ sc rest)
        ((t : String) × (String.◌∷◌ sc rest ≡ String.◌∷◌ pc t) × Fits t pattern)
unfolding IsAscii
same_char sc pc rest pattern e d = record {
  returns = λ a. d.returns a.1;
  sound = λ q. (rest, ap (λ c. String.◌∷◌ c rest) (Char-path sc pc e), d.sound q);
  complete = λ q (t, eq, f).
      let after : t ≡ rest = cc in d.complete q (subst (λ r. Fits r pattern) after f);
}

other_char :
    (sc pc : Char) (rest pattern : String)
    → (code sc == code pc) ≡ false
    → Decides
        (some false)
        (String.◌∷◌ sc rest)
        ((t : String) × (String.◌∷◌ sc rest ≡ String.◌∷◌ pc t) × Fits t pattern)
other_char sc pc rest pattern h = record {
  returns = λ a. (false, refl);
  sound = λ q. cc;
  complete = λ q (t, eq, f). let same : sc ≡ pc = cc in ground (arith, ap code same, h);
}

abbrev Decided : String → Type 0
Decided pattern = (s : String) → Decides (glob_match s pattern) s (Fits s pattern)

literal-Decided :
    (pc : Char) (pattern : String)
    → (code pc == star) ≡ false
    → Decided pattern
    → Decided (String.◌∷◌ pc pattern)
unfolding glob_match Fits
literal-Decided pc pattern e d String.[] =
    rw (e, glob_match, Fits)
      (record { returns = λ a. (false, refl); sound = λ q. cc; complete = λ q (t, eq, f). cc })
literal-Decided pc pattern e d (String.◌∷◌ sc rest) = elim (Bool-cases (code sc == code pc)) [
  | inl same ↦
      rw (e, glob_match, Fits)
        (rw (same, glob_match, Fits)
          (same_char sc pc rest pattern ((==_iff (code sc) (code pc)).0 same) (d rest)))
  | inr other ↦
      rw (e, glob_match, Fits) (rw (other, glob_match, Fits) (other_char sc pc rest pattern other))
]

star-Decided :
    (pc : Char) (pattern : String)
    → (code pc == star) ≡ true
    → Decided pattern
    → Decided (String.◌∷◌ pc pattern)
unfolding glob_match Fits
star-Decided pc String.[] e d s =
    rw (e, glob_match, Fits)
      (record {
        returns = λ a. (true, refl);
        sound = λ q. (s, "", sym (⧺-nil s), refl);
        complete = λ q. cc;
      })
star-Decided pc (String.◌∷◌ c pattern) e d s =
    rw (e, glob_match, Fits)
      (try_suffixes-Decides (λ t. glob_match t (String.◌∷◌ c pattern))
        (λ t. Fits t (String.◌∷◌ c pattern)) d s)

glob_match-Decided : (pattern : String) → Decided pattern
unfolding glob_match Fits
glob_match-Decided String.[] String.[] = record {
  returns = λ a. (true, refl);
  sound = λ q. refl;
  complete = λ q. cc;
}
glob_match-Decided String.[] (String.◌∷◌ c s) = record {
  returns = λ a. (false, refl);
  sound = λ q. cc;
  complete = λ q e. cc;
}
glob_match-Decided (String.◌∷◌ pc pattern) s = elim (Bool-cases (code pc == star)) [
  | inl e ↦ star-Decided pc pattern e (glob_match-Decided pattern) s
  | inr e ↦ literal-Decided pc pattern e (glob_match-Decided pattern) s
]

-- On a key of ASCII characters the match returns, without a panic, and it says yes exactly when
-- the pattern, a star in it standing for any text, is the key.
pub glob_match_iff :
    (s pattern : String)
    → IsAscii s
    → (b : Bool) × (glob_match s pattern ≡ some b) × ((b ≡ true) ↔ Fits s pattern)
glob_match_iff s pattern a =
    let d = glob_match-Decided pattern s in
    let (b, e) = d.returns a in
    (
      b,
      e,
      (
        (λ h. d.sound (e ∙ ap some h)),
        λ f. elim (Bool-cases b) [
          | inl fitting ↦ fitting
          | inr other ↦ absurd (d.complete (e ∙ ap some other) f)
        ],
      ),
    )

unfoldable pub IsStarFree : String → Type 0
IsStarFree String.[] = Unit
IsStarFree (String.◌∷◌ c s) = ((code c == star) ≡ false) × IsStarFree s

pub IsStarFree-⧺ : (s t : String) → IsStarFree s → IsStarFree t → IsStarFree (s ⧺ t)
unfolding IsStarFree
IsStarFree-⧺ String.[] t p q = q
IsStarFree-⧺ (String.◌∷◌ c s) t p q = (p.0, IsStarFree-⧺ s t p.1 q)

-- A text without stars and then one star fits what begins with the text.
pub Fits-literal :
    (text s : String) → IsStarFree text → Fits s (text ⧺ "*") ↔ ((t : String) × (s ≡ text ⧺ t))
unfolding Fits IsStarFree
Fits-literal String.[] s p = ((λ (u, t, e, f). (s, refl)), (λ (t, e). (s, "", sym (⧺-nil s), refl)))
Fits-literal (String.◌∷◌ c text) s p =
    rw (p.0, Fits)
      (
        (λ (r, e, f). let (t, g) = (Fits-literal text r p.1).0 f in (t, e ∙ ap (String.◌∷◌ c) g)),
        (λ (t, e). (text ⧺ t, e, (Fits-literal text (text ⧺ t) p.1).1 (t, refl))),
      )
