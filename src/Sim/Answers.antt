-- ===== src/Sim/Answers.antt =====
-- When a request through src/runtime/simulator/world.cpp is answered.
use metamorphosis.Prelude.{refl, inl, arith, ◌&&◌, ◌↔◌, inr, ◌⊎◌, ◌≡◌, ℕ, Bool, true, false, some}
use metamorphosis.Raft.Client.{RpcErrorType}
use metamorphosis.Sim.Host.{Host, process_request, contains}
use metamorphosis.Sim.World.{World, is_closed}
use metamorphosis.Sim.Network.{
  find_host, Arrival, answers, gives_up, reaches, arrive, respond, make_request,
}

arrive_reaches :
    (from address : ℕ) (is_network_error lost stop_requested : Bool) (w : World) (h : Host)
    → (arrive from address is_network_error lost stop_requested w ≡ reaches h) ↔ (
        ((is_network_error && lost) ≡ false)
        × (find_host address w.hosts ≡ some h)
        × (is_closed from address w.closed_links ≡ false)
        × (stop_requested ≡ false))
unfolding arrive
arrive_reaches from address is_network_error lost stop_requested w h =
    (λ e. ground arith, λ e. ground arith)

respond-inr :
    {A : Type 0} (from address : ℕ) (is_network_error : Bool) (result : RpcErrorType ⊎ A)
    (w : World) (x : A)
    → (respond from address is_network_error result w ≡ inr x) ↔ (
        (is_closed from address w.closed_links ≡ false)
        × (is_network_error ≡ false)
        × (result ≡ inr x))
unfolding respond
respond-inr from address is_network_error result w x = (λ e. ground arith, λ e. ground arith)

process_request-inr :
    {A : Type 0} (port : ℕ) (handled : RpcErrorType ⊎ A) (h : Host) (x : A)
    → (process_request port handled h ≡ inr x)
      ↔ ((contains port h.servers ≡ true) × (handled ≡ inr x))
unfolding process_request
process_request-inr port handled h x = (λ e. ground arith, λ e. ground arith)

Arrival-cases :
    (a : Arrival)
    → ((e : RpcErrorType) × (a ≡ answers e)) ⊎ ((a ≡ gives_up) ⊎ ((h : Host) × (a ≡ reaches h)))
Arrival-cases (answers e) = inl (e, refl)
Arrival-cases gives_up = inr (inl refl)
Arrival-cases (reaches h) = inr (inr (h, refl))

module _ {A : Type 0} (from address port : ℕ) (is_network_error lost stop_requested stopped : Bool)
    (handled : Host → RpcErrorType ⊎ A) (w w' : World) (x : A) where
  abbrev result : RpcErrorType ⊎ A
  result = make_request from address port is_network_error lost stop_requested stopped handled w w'

  -- A way from the client to the handler and back.
  abbrev pub IsDelivered : Type 0
  IsDelivered =
      (stopped ≡ false)
      × (stop_requested ≡ false)
      × (is_network_error ≡ false)
      × (is_closed from address w.closed_links ≡ false)
      × (is_closed from address w'.closed_links ≡ false)
      × ((h : Host) × (find_host address w.hosts ≡ some h)
          × (contains port h.servers ≡ true)
          × (handled h ≡ inr x))

  -- A request is answered without an error just if neither draw nor a stop prevents it, the link from
  -- the client to the host is open when the request arrives and when the answer does, the host exists
  -- and has a server at the port, and that gives the answer.
  pub make_request-IsDelivered : (result ≡ inr x) ↔ IsDelivered
  unfolding make_request
  make_request-IsDelivered = (
    λ e. elim (Arrival-cases (arrive from address is_network_error lost stop_requested w)) [
      | inl (f, a) ↦ ground arith
      | inr (inl a) ↦ ground arith
      | inr (inr (h, a)) ↦
          let going : stopped ≡ false = ground arith in
          let back : respond from address is_network_error (process_request port (handled h) h) w'
              ≡ inr x =
            ground arith in
          let (kept, host, clear, no_stop) =
            (arrive_reaches from address is_network_error lost stop_requested w h).0 a in
          let (clear', no_error, given) =
            (respond-inr from address is_network_error (process_request port (handled h) h) w' x).0
              back in
          let (server, answer) = (process_request-inr port (handled h) h x).0 given in
          (going, no_stop, no_error, clear, clear', (h, host, server, answer))
    ],
    λ (going, no_stop, no_error, clear, clear', (h, host, server, answer)).
        let kept : (is_network_error && lost) ≡ false = ground arith in
        let a =
          (arrive_reaches from address is_network_error lost stop_requested w h).1
            (kept, host, clear, no_stop) in
        let given = (process_request-inr port (handled h) h x).1 (server, answer) in
        let back =
          (respond-inr from address is_network_error (process_request port (handled h) h) w' x).1
            (clear', no_error, given) in
        rw (going, a) back,
  )
