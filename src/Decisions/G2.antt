-- ===== src/Decisions/G2.antt =====
-- What `decide_g2` of gatekeeper/gates/decisions.py guarantees.
use lakshmana_core.Prelude.{
  ◌≤◌, Option, none, some, ◌≡◌, ◌↔◌, ◌⊎◌, arith, inl, inr, Option-cases, Bool-cases, leb, leb→le,
}
use lakshmana_core.Enums.{corroborates}
use lakshmana_core.Decisions.{
  GroundingScore, G2Scores, Thresholds, decided, Direction, Disposition, Score, best_support,
  decide_g2,
}

-- The score that a direction was scored with; a missing grounded score counts as none.
abbrev pub support_in : G2Scores → Direction → Option Score
support_in s Direction.forward = some s.forward.support
support_in s Direction.backward = some s.backward.support
support_in s Direction.grounded = elim s.grounded [ none ↦ none | some g ↦ some g.support ]

-- The best support is scored in its direction, and no direction was scored higher.
pub best_support-max :
    (s : G2Scores)
    → (support_in s (best_support s).1 ≡ some (best_support s).0)
      × (s.forward.support ≤ (best_support s).0)
      × (s.backward.support ≤ (best_support s).0)
      × ((g : GroundingScore) → s.grounded ≡ some g → g.support ≤ (best_support s).0)
unfolding best_support
best_support-max s = (ground arith, ground arith, ground arith, λ g h. ground arith)

best_le :
    (s : G2Scores) (t : Thresholds)
    → t.support_min ≤ (best_support s).0
    → (t.support_min ≤ s.forward.support)
      ⊎ (t.support_min ≤ s.backward.support)
      ⊎ ((g : GroundingScore) × (s.grounded ≡ some g) × (t.support_min ≤ g.support))
unfolding best_support
best_le s t h = elim (Option-cases s.grounded) [
  | inl bare ↦ elim (best_plain bare) [ inl f ↦ inl f | inr b ↦ inr (inl b) ]
  | inr (g, e) ↦ elim (best_grounded g e) [
    | inl f ↦ inl f
    | inr (inl b) ↦ inr (inl b)
    | inr (inr x) ↦ inr (inr (g, e, x))
  ]
]
  where
    best_plain :
        s.grounded ≡ none
        → (t.support_min ≤ s.forward.support) ⊎ (t.support_min ≤ s.backward.support)
    best_plain e = ground arith

    best_grounded :
        (g : GroundingScore)
        → s.grounded ≡ some g
        → (t.support_min ≤ s.forward.support)
          ⊎ (t.support_min ≤ s.backward.support)
          ⊎ (t.support_min ≤ g.support)
    best_grounded g e = ground arith

-- G2 decides exactly when some support reaches `support_min`.
pub decide_g2-decided :
    (s : G2Scores) (t : Thresholds)
    → ((decide_g2 s t).disposition ≡ decided) ↔ (
        (t.support_min ≤ s.forward.support)
        ⊎ (t.support_min ≤ s.backward.support)
        ⊎ ((g : GroundingScore) × (s.grounded ≡ some g) × (t.support_min ≤ g.support)))
unfolding decide_g2
decide_g2-decided s t = (λ h. best_le s t (reached h), enough)
  where
    reached : (decide_g2 s t).disposition ≡ decided → t.support_min ≤ (best_support s).0
    reached h = ground arith

    above : t.support_min ≤ (best_support s).0 → (decide_g2 s t).disposition ≡ decided
    above h = ground arith

    enough :
        (t.support_min ≤ s.forward.support)
          ⊎ (t.support_min ≤ s.backward.support)
          ⊎ ((g : GroundingScore) × (s.grounded ≡ some g) × (t.support_min ≤ g.support))
        → (decide_g2 s t).disposition ≡ decided
    enough (inl f) = above (omega (arith, best_support-max s))
    enough (inr (inl b)) = above (omega (arith, best_support-max s))
    enough (inr (inr (g, e, x))) = let le = (best_support-max s).3 g e in above (omega (arith, le))

-- A pair that G2 decides is CORROBORATES, and its confidence reaches `support_min`, is the score of
-- the direction that it names and is exceeded by no other direction's score; a pair that it does not
-- decide is forwarded with no verdict, direction or confidence.
pub decide_g2-verdict :
    (s : G2Scores) (t : Thresholds)
    → (((decide_g2 s t).disposition ≡ decided)
        × ((decide_g2 s t).verdict ≡ some corroborates)
        × ((decide_g2 s t).direction ≡ some (best_support s).1)
        × ((decide_g2 s t).confidence ≡ some (best_support s).0)
        × (support_in s (best_support s).1 ≡ some (best_support s).0)
        × (t.support_min ≤ (best_support s).0)
        × (s.forward.support ≤ (best_support s).0)
        × (s.backward.support ≤ (best_support s).0)
        × ((g : GroundingScore) → s.grounded ≡ some g → g.support ≤ (best_support s).0))
      ⊎ (((decide_g2 s t).disposition ≡ Disposition.forward)
          × ((decide_g2 s t).verdict ≡ none)
          × ((decide_g2 s t).direction ≡ none)
          × ((decide_g2 s t).confidence ≡ none))
unfolding decide_g2
decide_g2-verdict s t = elim (Bool-cases (leb t.support_min (best_support s).0)) [
  | inl e ↦
      let (own, f, b, g) = best_support-max s in
      inl (ground arith, ground arith, ground arith, ground arith, own, leb→le _ _ e, f, b, g)
  | inr e ↦ inr (ground arith)
]
