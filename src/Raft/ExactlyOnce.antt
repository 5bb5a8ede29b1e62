-- ===== src/Raft/ExactlyOnce.antt =====
-- What src/raft/node/state_machine_wrapper promises of the requests that it passes on.
use metamorphosis.Prelude.{
  ℕ, ◌==◌, ◌≡◌, ◌≢◌, refl, sym, ap, ◌∙◌, List, [], ◌∷◌, arith, none, if◌then◌else◌, ==_iff,
}
use metamorphosis.Kv.{get}
use metamorphosis.Kv.Lookup.{get-put}
use metamorphosis.Raft.Messages.{Any, Request, LogEntry}
use metamorphosis.Raft.Machine.{
  Externals, ExactlyOnce, LastClientData, data_or_default, apply, replay,
}

-- The id of the last request of a client that reached the machine; 0 before the first.
abbrev pub last_id : {M : Type 0} → ExactlyOnce M → ℕ → ℕ
last_id m c = (data_or_default (get c m.clients_last_cmd_id)).request_id

abbrev pub last_response : {M : Type 0} → ExactlyOnce M → ℕ → Any
last_response m c = (data_or_default (get c m.clients_last_cmd_id)).response

-- The commands that a log runs: an entry whose id is the last one of its client is skipped.
unfoldable pub effective : (ℕ → ℕ) → List LogEntry → List Any
effective last [] = []
effective last (e ∷ es) =
    let r = e.request in
    let rest = effective (λ c. if c == r.client_id then r.request_id else last c) es in
    if last r.client_id == r.request_id then rest else r.command ∷ rest

module _ {M : Type 0} (x : Externals M) where
  -- The machine of the user, run on a list of commands.
  unfoldable pub run_commands : List Any → M → M
  run_commands [] m = m
  run_commands (c ∷ cs) m = run_commands cs (x.apply m c).0

  last_id-apply :
      (r : Request) (m : ExactlyOnce M) (c : ℕ)
      → last_id (apply x r m).0 c ≡ (if c == r.client_id then r.request_id else last_id m c)
  unfolding apply
  last_id-apply r m c =
      let clients = m.clients_last_cmd_id in
      let old = data_or_default (get r.client_id clients) in
      let new : LastClientData = record {
        response = (x.apply m.state_machine r.command).1;
        request_id = r.request_id;
      } in
      ground (arith, get-put r.client_id c old clients, get-put r.client_id c new clients)

  apply-state_machine :
      (r : Request) (m : ExactlyOnce M)
      → (apply x r m).0.state_machine ≡ (
          if last_id m r.client_id == r.request_id
          then m.state_machine
          else (x.apply m.state_machine r.command).0)
  unfolding apply
  apply-state_machine r m = ground arith

  apply-response :
      (r : Request) (m : ExactlyOnce M)
      → (last_id m r.client_id ≡ r.request_id → (apply x r m).1 ≡ last_response m r.client_id)
        × (last_response (apply x r m).0 r.client_id ≡ (apply x r m).1)
  unfolding apply
  apply-response r m =
      let clients = m.clients_last_cmd_id in
      let c = r.client_id in
      let old = data_or_default (get c clients) in
      let new : LastClientData = record {
        response = (x.apply m.state_machine r.command).1;
        request_id = r.request_id;
      } in
      ground (arith, get-put c c old clients, get-put c c new clients)

  get-apply_other :
      (r : Request) (m : ExactlyOnce M) (c : ℕ)
      → r.client_id ≢ c
      → get c (apply x r m).0.clients_last_cmd_id ≡ get c m.clients_last_cmd_id
  unfolding apply
  get-apply_other r m c h =
      let clients = m.clients_last_cmd_id in
      let old = data_or_default (get r.client_id clients) in
      let new : LastClientData = record {
        response = (x.apply m.state_machine r.command).1;
        request_id = r.request_id;
      } in
      ground (arith, get-put r.client_id c old clients, get-put r.client_id c new clients)

  -- The user's machine sees exactly the effective commands of the log, in order, where `last` gives
  -- the id of each client's last request before the log.
  pub replay-effective :
      (es : List LogEntry) (m : ExactlyOnce M) (last : ℕ → ℕ)
      → ((c : ℕ) → last c ≡ last_id m c)
      → (replay x es m).state_machine ≡ run_commands (effective last es) m.state_machine
  unfolding replay effective run_commands
  replay-effective [] m last h = refl
  replay-effective (e ∷ es) m last h =
      let r = e.request in
      let ih =
        replay-effective es (apply x r m).0 (λ c. if c == r.client_id then r.request_id else last c)
          (λ c.
            ap (λ n. if c == r.client_id then r.request_id else n) (h c)
            ∙ sym (last_id-apply r m c)) in
      ground (arith, h r.client_id, apply-state_machine r m, ih)

  -- No client but the one named speaks in the log.
  abbrev pub Others : ℕ → List LogEntry → Type 0
  Others c [] = Unit {0}
  Others c (e ∷ es) = (e.request.client_id ≢ c) × Others c es

  get-replay-Others :
      (es : List LogEntry) (m : ExactlyOnce M) (c : ℕ)
      → Others c es
      → get c (replay x es m).clients_last_cmd_id ≡ get c m.clients_last_cmd_id
  unfolding replay
  get-replay-Others [] m c h = refl
  get-replay-Others (e ∷ es) m c h =
      get-replay-Others es (apply x e.request m).0 c h.1 ∙ get-apply_other e.request m c h.0

  -- A request that is logged again, with no other of its client between, does not reach the machine,
  -- and gets the response of the first time.
  pub retry_once :
      (r : Request) (es : List LogEntry) (m : ExactlyOnce M)
      → Others r.client_id es
      → let first = apply x r m in
        let before = replay x es first.0 in
        ((apply x r before).0.state_machine ≡ before.state_machine)
        × ((apply x r before).1 ≡ first.1)
  retry_once r es m h =
      let first = apply x r m in
      let before = replay x es first.0 in
      let same = get-replay-Others es first.0 r.client_id h in
      let seen : last_id first.0 r.client_id ≡ r.request_id =
        last_id-apply r m r.client_id ∙ rw ((==_iff r.client_id r.client_id).1 refl) in
      let known : last_id before r.client_id ≡ r.request_id =
        ap (λ o. (data_or_default o).request_id) same ∙ seen in
      let skipped = (==_iff (last_id before r.client_id) r.request_id).1 known in
      (
        apply-state_machine r before ∙ rw skipped,
        (apply-response r before).0 known
            ∙ ap (λ o. (data_or_default o).response) same
            ∙ (apply-response r m).1,
      )

  -- A new client's first request is lost if its id is 0: the machine never sees it, and the client
  -- is given an empty response.
  pub zero_id_lost :
      (r : Request) (m : ExactlyOnce M)
      → get r.client_id m.clients_last_cmd_id ≡ none
      → r.request_id ≡ 0
      → ((apply x r m).0.state_machine ≡ m.state_machine) × ((apply x r m).1 ≡ [])
  unfolding apply
  zero_id_lost r m h z = ground arith
