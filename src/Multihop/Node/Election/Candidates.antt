-- ===== src/Multihop/Node/Election/Candidates.antt =====
-- The two best of the clusterheads that a follower has heard, by ClusterheadCandidates of
-- lib/net/src/multihop.cpp.
use mathlib.Core.List.{Perm, perm_middle}
use mathlib.Core.List.Perm
use lora_multihop.Prelude.{ℕ, ◌≤◌, ◌<◌, ◌≡◌, sym, subst, List, [], ◌∷◌, ◌++◌, arith, dec_lt}
use lora_multihop.Multihop.Node.Election.{
  Candidate, ClusterheadCandidates, no_candidate, reset, update,
}

abbrev pub AllBelow : ℕ → List Candidate → Type 0
AllBelow score [] = Unit {0}
AllBelow score (x ∷ xs) = (x.score ≤ score) × AllBelow score xs

-- The candidates kept are two of the pool, at different places, and no other scores above them.
pub record TopTwo (c : ClusterheadCandidates) (pool : List Candidate) : Type 0 where
  pub rest : List Candidate
  pub perm : Perm pool (c.first ∷ c.other ∷ rest)
  pub order : c.other.score ≤ c.first.score
  pub below : AllBelow c.other.score rest

AllBelow-mono : {a b : ℕ} (xs : List Candidate) → a ≤ b → AllBelow a xs → AllBelow b xs
AllBelow-mono [] h all = tt
AllBelow-mono (x ∷ xs) h all = (omega (arith, all.0), AllBelow-mono xs h all.1)

module _ (c : ClusterheadCandidates) (x : Candidate) where
  update-first : c.first.score < x.score → update c x ≡ record { first = x; other = c.first }
  unfolding update
  update-first h = ground arith

  update-other :
      x.score ≤ c.first.score
      → c.other.score < x.score
      → update c x ≡ record { first = c.first; other = x }
  unfolding update
  update-other h k = ground arith

  update-neither : x.score ≤ c.first.score → x.score ≤ c.other.score → update c x ≡ c
  unfolding update
  update-neither h k = ground arith

update-TopTwo :
    (c : ClusterheadCandidates) (x : Candidate) (pool : List Candidate)
    → TopTwo c pool
    → TopTwo (update c x) (x ∷ pool)
update-TopTwo c x pool t =
    let put = λ (d : ClusterheadCandidates) (e : update c x ≡ d) (v : TopTwo d (x ∷ pool)).
      subst (λ (k : ClusterheadCandidates). TopTwo k (x ∷ pool)) (sym e) v in
    elim (dec_lt c.first.score x.score) [
      | yes best ↦ put _ (update-first c x best) (record {
        rest = c.other ∷ t.rest;
        perm = Perm.cons x t.perm;
        order = omega arith;
        below = (t.order, AllBelow-mono t.rest t.order t.below);
      })
      | no not_best ↦ elim (dec_lt c.other.score x.score) [
        | yes good ↦ put _ (update-other c x (omega arith) good) (record {
          rest = c.other ∷ t.rest;
          perm = Perm.trans (Perm.cons x t.perm) (Perm.swap c.first x (c.other ∷ t.rest));
          order = omega arith;
          below = (omega arith, AllBelow-mono t.rest (omega arith) t.below);
        })
        | no poor ↦ put _ (update-neither c x (omega arith) (omega arith)) (record {
          rest = x ∷ t.rest;
          perm =
              Perm.trans (Perm.cons x t.perm)
                (Perm.symm (perm_middle (c.first ∷ c.other ∷ []) t.rest));
          order = t.order;
          below = (omega arith, t.below);
        })
      ]
    ]

-- The candidates after these have been heard, in this order.
abbrev pub offers : ClusterheadCandidates → List Candidate → ClusterheadCandidates
offers c [] = c
offers c (x ∷ xs) = offers (update c x) xs

offers-TopTwo :
    (c : ClusterheadCandidates) (xs pool : List Candidate)
    → TopTwo c pool
    → TopTwo (offers c xs) (xs ++ pool)
offers-TopTwo c [] pool t = t
offers-TopTwo c (x ∷ xs) pool t =
    let v = offers-TopTwo (update c x) xs (x ∷ pool) (update-TopTwo c x pool t) in
    record {
      rest = v.rest;
      perm = Perm.trans (Perm.symm (perm_middle xs pool)) v.perm;
      order = v.order;
      below = v.below;
    }

-- From a reset on, the two candidates kept are two of those heard (or empty places, where fewer scored
-- above 0), the first scores no less than the second, and no other one heard scores above either.
pub reset-offers :
    (heard : List Candidate)
    → TopTwo (offers reset heard) (heard ++ (no_candidate ∷ no_candidate ∷ []))
reset-offers heard =
    offers-TopTwo reset heard (no_candidate ∷ no_candidate ∷ [])
      (record { rest = []; perm = Perm.refl _; order = omega arith; below = tt })
