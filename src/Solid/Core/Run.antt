-- ===== src/Solid/Core/Run.antt =====
-- Runs of the core, its operations in any order (core.rs), and the chain that they commit.
use zerosats.Prelude.{
  ℕ, suc, ◌+◌, ◌^◌, ◌<◌, ◌≡◌, refl, ap, ◌∙◌, subst, false, Option, some, List, [], ◌∷◌, arith,
  length,
}
use zerosats.Solid.Types.{ProposalAccept, Manifest, Check, App}
use zerosats.Solid.Core.{
  SolidCore, SolidConfig, PeerSigner, SolidEvent, commit, receive_proposal, with_last_confirmed,
}
use zerosats.Solid.Core.Valid.{IsAt, move-IsAt}
use zerosats.Solid.Core.Receive.{receive_proposal-Received, with_last_confirmed-IsAt}
use zerosats.Solid.Core.Events.{next_event, skip, receive_accept, AcceptReply}
use zerosats.Solid.Core.Events.Quiet.{commits}
use zerosats.Solid.Core.Events.Commit.{next_event-Commits}
use zerosats.Solid.Core.Events.Answers.{skip-Answers, receive_accept-total, next_event-IsAt}

module _ {S : Type 0} (app : App S) where
  -- From `s` to `s'`, by calls in any order and at any times; the list has the manifests that are
  -- committed on the way. Proposals that come in have validators and heights below the bound.
  pub data Run : SolidCore S → List (Manifest S) → SolidCore S → Type 0 where
    stop : {s : SolidCore S} → Run s [] s
    proposed :
        {s s1 s' : SolidCore S} {ms : List (Manifest S)} (m : Manifest S) (r : Check)
        → m.height + 2 < 2 ^ 64
        → 0 < length m.validators
        → receive_proposal app s m ≡ some (s1, r)
        → Run s1 ms s'
        → Run s ms s'
    accepted :
        {s s1 s' : SolidCore S} {ms : List (Manifest S)} (now : ℕ) (a : ProposalAccept)
        (r : AcceptReply S)
        → receive_accept app now a s ≡ some (s1, r)
        → Run s1 ms s'
        → Run s ms s'
    skipped :
        {s s1 s' : SolidCore S} {ms : List (Manifest S)} (now : ℕ) (e : Option (SolidEvent S))
        → skip app now s ≡ some (s1, e)
        → Run s1 ms s'
        → Run s ms s'
    moved :
        {s s1 s' : SolidCore S} {ms : List (Manifest S)} (now : ℕ) (e : Option (SolidEvent S))
        → next_event app now s ≡ some (s1, e)
        → commits e ≡ false
        → Run s1 ms s'
        → Run s ms s'
    committed :
        {s s1 s' : SolidCore S} {ms : List (Manifest S)} (now : ℕ) (m c : Manifest S)
        → next_event app now s ≡ some (s1, some (commit m c))
        → Run s1 ms s'
        → Run s (m ∷ ms) s'

  -- Each manifest names the hash of the one before and is one higher.
  abbrev pub Chain : (hash h : ℕ) → List (Manifest S) → (hash' h' : ℕ) → Type 0
  Chain hash h [] hash' h' = (hash ≡ hash') × (h ≡ h')
  Chain hash h (m ∷ ms) hash' h' =
      (m.last_proposal_hash ≡ hash)
      × (m.height ≡ suc h)
      × Chain (app.hash m.content) (suc h) ms hash' h'

  same_state :
      {A : Type 0} {o : Option (SolidCore S × A)} {s s' : SolidCore S} {a b : A}
      → o ≡ some (s, a)
      → o ≡ some (s', b)
      → s ≡ s'
  same_state e f = cc

  follow :
      {hash h : ℕ} {s s1 : SolidCore S}
      → IsAt app hash h s.proposals
      → s ≡ s1
      → IsAt app hash h s1.proposals
  follow {hash} {h} at same = subst (λ (x : SolidCore S). IsAt app hash h x.proposals) same at

  -- Whatever proposals (with validators and heights below the bound), accepts, timeouts and calls
  -- of `next_event` come in any order from a valid state on, the manifests that are committed are
  -- one chain: the first one names the last confirmed hash, each one names the hash of the one
  -- before, and their heights rise by one. The state at the end is valid, and stands at the last
  -- one of the chain.
  pub Run-Chain :
      (hash h : ℕ) (s s' : SolidCore S) (ms : List (Manifest S))
      → IsAt app hash h s.proposals
      → Run s ms s'
      → (hash' h' : ℕ) × Chain hash h ms hash' h' × IsAt app hash' h' s'.proposals
  Run-Chain hash h s s' ms v stop = (hash, h, (refl, refl), v)
  Run-Chain hash h s s' ms v (proposed {s1 = s1} m r small led e run) =
      let (t, r', e', done) = receive_proposal-Received app s m v.valid small led in
      let at =
        move-IsAt app hash h s.proposals t.proposals v done.valid done.same_last done.same_height in
      Run-Chain hash h s1 s' ms (follow at (same_state e' e)) run
  Run-Chain hash h s s' ms v (accepted {s1 = s1} now a r e run) =
      let (t, r', e', at) = receive_accept-total app now hash h a s v in
      Run-Chain hash h s1 s' ms (follow at (same_state e' e)) run
  Run-Chain hash h s s' ms v (skipped {s1 = s1} now x e run) =
      let (t, x', e', at) = skip-Answers app now hash h s v in
      Run-Chain hash h s1 s' ms (follow at (same_state e' e)) run
  Run-Chain hash h s s' ms v (moved {s1 = s1} now x e quiet run) =
      Run-Chain hash h s1 s' ms (next_event-IsAt app now hash h s s1 x v e quiet) run
  Run-Chain hash h s s' all v (committed {s1 = s1} {ms = ms} now m c e run) =
      let done = next_event-Commits app now s s1 m c v.valid e in
      let (h0, at, up) = done.one_higher in
      let up' : m.height ≡ suc h = ground (arith, v.at_height) in
      let at1 : IsAt app (app.hash m.content) (suc h) s1.proposals = record {
        valid = done.valid;
        at_hash = done.confirmed;
        at_height = done.new_height ∙ ap some up';
      } in
      let (hash', h', chain, at') = Run-Chain (app.hash m.content) (suc h) s1 s' ms at1 run in
      (hash', h', (done.names_confirmed ∙ v.at_hash, up', chain), at')

  -- The manifests that a node commits from its start on are one chain from the manifest that it has
  -- started from, if that one has validators and a height below the bound, and the state of the node
  -- stays valid.
  pub with_last_confirmed-Chain :
      (signer : PeerSigner) (start : Manifest S) (config : SolidConfig) (s' : SolidCore S)
      (ms : List (Manifest S))
      → start.height + 2 < 2 ^ 64
      → 0 < length start.validators
      → Run (with_last_confirmed app signer start config) ms s'
      → (hash' h' : ℕ) × Chain (app.hash start.content) start.height ms hash' h'
        × IsAt app hash' h' s'.proposals
  with_last_confirmed-Chain signer start config s' ms small led run =
      Run-Chain (app.hash start.content) start.height (with_last_confirmed app signer start config)
        s' ms (with_last_confirmed-IsAt app signer start config small led) run
