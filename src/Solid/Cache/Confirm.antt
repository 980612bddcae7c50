-- ===== src/Solid/Cache/Confirm.antt =====
-- What is left in the cache once a proposal is confirmed (cache.rs).
use zerosats.Prelude.{
  ℕ, ◌≤◌, ◌<◌, ◌≡◌, refl, ◌↔◌, Bool, false, none, some, List, [], ◌∷◌, arith, inl, inr,
  Option-cases, add64, dec_lt, if◌then◌else◌, elem,
}
use zerosats.Prelude.Maps.{Map, get, remove, IsMap, get-remove, remove-IsMap}
use zerosats.Solid.Proposal.{Proposal}
use zerosats.Solid.Cache.{ProposalCache, is_redundant, keys_to_remove, remove_keys, purge, confirm}
use zerosats.Solid.Cache.Chain.{IsKeyed, Descends, stored_at}
use zerosats.Solid.Cache.Pending.{IsValid, height-confirmed, is_decendent-total, is_decendent_iff}

module _ {S : Type 0} where
  remove-IsKeyed : (k : ℕ) (m : Map (Proposal S)) → IsKeyed m → IsKeyed (remove k m)
  remove-IsKeyed k m v = record {
    once = remove-IsMap k m v.once;
    keyed = λ j q e. ground (arith, get-remove j k m, v.keyed j q);
    small = λ j q e. ground (arith, get-remove j k m, v.small j q);
  }

  get-remove_keys :
      (k : ℕ) (ks : List ℕ) (m : Map (Proposal S))
      → get k (remove_keys ks m) ≡ (if elem k ks then none else get k m)
  get-remove_keys k [] m = refl
  get-remove_keys k (j ∷ ks) m = ground (arith, get-remove_keys k ks (remove j m), get-remove k j m)

  remove_keys-IsKeyed :
      (ks : List ℕ) (m : Map (Proposal S)) → IsKeyed m → IsKeyed (remove_keys ks m)
  remove_keys-IsKeyed [] m v = v
  remove_keys-IsKeyed (j ∷ ks) m v = remove_keys-IsKeyed ks (remove j m) (remove-IsKeyed j m v)

  module _ (c : ProposalCache S) (h : ℕ) where
    -- The keys to remove are keys of the map.
    keys-absent :
        (m : Map (Proposal S)) (ks : List ℕ) (k : ℕ)
        → keys_to_remove c h m ≡ some ks
        → get k m ≡ none
        → elem k ks ≡ false
    unfolding keys_to_remove
    keys-absent [] ks k e n = ground arith
    keys-absent ((j, q) ∷ m) ks k e n = elim (Option-cases (keys_to_remove c h m)) [
      | inl e' ↦ absurd (ground arith)
      | inr (rest, e') ↦ ground (arith, keys-absent m rest k e')
    ]

    -- The keys to remove are those of the redundant proposals.
    keys-elem :
        (m : Map (Proposal S)) (ks : List ℕ) (k : ℕ) (p : Proposal S)
        → IsMap m
        → keys_to_remove c h m ≡ some ks
        → get k m ≡ some p
        → is_redundant c h p ≡ some (elem k ks)
    unfolding keys_to_remove
    keys-elem [] ks k p o e s = absurd (cc)
    keys-elem ((j, q) ∷ m) ks k p o e s = elim (Option-cases (keys_to_remove c h m)) [
      | inl e' ↦ absurd (ground arith)
      | inr (rest, e') ↦ ground (arith, keys-elem m rest k p o.1 e', keys-absent m rest k e')
    ]

-- What `purge` keeps: below the last confirmed proposal the last `cache_size` heights, at its
-- height only itself, and above it what descends from it.
pub record IsKept {S : Type 0} (c : ProposalCache S) (confirmed p : Proposal S) : Type 0 where
  pub recent : p.height < confirmed.height → confirmed.height ≤ add64 p.height c.cache_size
  pub same : p.height ≡ confirmed.height → p.hash ≡ c.last_confirmed_proposal_hash
  pub descends : confirmed.height < p.height → (n : ℕ) × Descends c.proposals confirmed n p

module _ {S : Type 0} (c : ProposalCache S) (v : IsValid c) where
  is_redundant-total :
      (p : Proposal S) → (b : Bool) × (is_redundant c v.confirmed.height p ≡ some b)
  unfolding is_redundant
  is_redundant-total p =
      let (b, r) = is_decendent-total c v p in
      elim (Option-cases (is_redundant c v.confirmed.height p)) [
        | inl e ↦ absurd (ground arith)
        | inr found ↦ found
      ]

  keys_to_remove-total :
      (m : Map (Proposal S)) → (ks : List ℕ) × (keys_to_remove c v.confirmed.height m ≡ some ks)
  unfolding keys_to_remove
  keys_to_remove-total [] = ([], refl)
  keys_to_remove-total ((k, p) ∷ m) =
      let (ks, e) = keys_to_remove-total m in
      let (b, r) = is_redundant-total p in ((if b then k ∷ ks else ks), rw (e, r))

  IsKept-iff :
      (p : Proposal S)
      → get p.hash c.proposals ≡ some p
      → (is_redundant c v.confirmed.height p ≡ some false) ↔ IsKept c v.confirmed p
  unfolding is_redundant
  IsKept-iff p s =
      let i = is_decendent_iff c v p s in
      (
        λ h. record {
          recent = λ lt. ground arith;
          same = λ e. ground arith;
          descends = λ lt. i.0 (ground arith);
        },
        λ k. elim (dec_lt v.confirmed.height p.height) [
          | yes lt ↦ ground (arith, k.recent, k.same, i.1 (k.descends lt))
          | no ge ↦ ground (arith, k.recent, k.same)
        ],
      )

  get-IsKept :
      (ks : List ℕ) (k : ℕ) (p : Proposal S)
      → keys_to_remove c v.confirmed.height c.proposals ≡ some ks
      → (get k (remove_keys ks c.proposals) ≡ some p)
        ↔ ((get k c.proposals ≡ some p) × IsKept c v.confirmed p)
  get-IsKept ks k p e =
      let removed = get-remove_keys k ks c.proposals in
      let redundant = keys-elem c v.confirmed.height c.proposals ks k p v.keyed.once e in
      let kept = λ (s : get k c.proposals ≡ some p). IsKept-iff p (stored_at v.keyed k p s) in
      (
        λ h.
            let s : get k c.proposals ≡ some p = ground arith in
            (s, (kept s).0 (ground (arith, redundant s))),
        λ (s, q). ground (arith, (kept s).1 q, redundant s),
      )

  purge-eq :
      (ks : List ℕ)
      → keys_to_remove c v.confirmed.height c.proposals ≡ some ks
      → purge c ≡ some (record c { proposals = remove_keys ks c.proposals })
  unfolding purge
  purge-eq ks e = rw (height-confirmed c v, e)

-- A cache after `confirm`.
pub record Confirmed {S : Type 0} (c : ProposalCache S) (hash : ℕ) (p : Proposal S)
    (c' : ProposalCache S) : Type 0 where
  pub valid : IsValid c'
  pub is_last : c'.last_confirmed_proposal_hash ≡ hash
  pub confirms : get hash c'.proposals ≡ some p
  pub keeps :
      (k : ℕ) (q : Proposal S)
      → (get k c'.proposals ≡ some q) ↔ (
          (get k c.proposals ≡ some q)
          × IsKept (record c { last_confirmed_proposal_hash = hash }) p q)

-- Confirming a proposal of a keyed cache does not panic and ends, and leaves a valid cache, in
-- which that proposal is the last confirmed one. A proposal is kept exactly when it is higher and
-- descends from the confirmed one, is that one, or is lower by at most the size of the cache, where
-- its height and that size are added modulo 2 ^ 64.
pub confirm-Confirmed :
    {S : Type 0} (c : ProposalCache S) (hash : ℕ) (p : Proposal S)
    → IsKeyed c.proposals
    → get hash c.proposals ≡ some p
    → (c' : ProposalCache S) × (confirm hash c ≡ some c') × Confirmed c hash p c'
unfolding confirm
confirm-Confirmed {S} c hash p keyed s =
    let c1 : ProposalCache S = record c { last_confirmed_proposal_hash = hash } in
    let v : IsValid c1 = record { keyed = keyed; confirmed = p; held = s } in
    let (ks, e) = keys_to_remove-total c1 v c.proposals in
    let c' : ProposalCache S = record c1 { proposals = remove_keys ks c.proposals } in
    let held : get hash c'.proposals ≡ some p = (get-IsKept c1 v ks hash p e).1 (
      s,
      record {
        recent = λ lt. absurd (omega arith);
        same = λ _. keyed.keyed hash p s;
        descends = λ lt. absurd (omega arith);
      },
    ) in
    (
      c',
      purge-eq c1 v ks e,
      record {
        valid = record {
          keyed = remove_keys-IsKeyed ks c.proposals keyed;
          confirmed = p;
          held = held;
        };
        is_last = refl;
        confirms = held;
        keeps = λ k q. get-IsKept c1 v ks k q e;
      },
    )
