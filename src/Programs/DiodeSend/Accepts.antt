-- ===== src/Programs/DiodeSend/Accepts.antt =====
-- Which clients src/bin/diode-send.rs takes, and what it runs.
use lidi.Prelude.{
  ℕ, zero, suc, ◌-◌, ◌≤◌, ◌≡◌, refl, ap, sym, ◌∙◌, Option, none, some, true, false, List, [], ◌∷◌,
  ◌++◌, map, take, length, arith, append_assoc, append-nil, String,
}
use lidi.Prelude.Outcome.{Outcome, ok}
use lidi.Protocol.RaptorQ
use lidi.Protocol.RaptorQ.{RaptorQ}
use lidi.Send.Sender
use lidi.Send.Sender.{Config, Channel, Sender, Worker, cpu_ids, new, new_client}
use lidi.Send.Sender.Starts.{sender_plan, start-sender_plan}
use lidi.Programs.{returned, World}
use lidi.Programs.DiodeSend.{
  Args, Client, listener_loop, Sockets, Listener, tcp_listener, unix_listener, Ran, config, scope,
  main,
}

-- The clients before the first failure to accept one.
abbrev pub accepted : List (Option ℕ) → List ℕ
accepted [] = []
accepted (some socket ∷ incoming) = socket ∷ accepted incoming
accepted (none ∷ incoming) = []

-- After clients were queued on a sender that can receive.
abbrev pub with_clients : Sender Client → List (Option Client) → Sender Client
with_clients s clients = record s {
  to_server = record (s.to_server) { items = s.to_server.items ++ clients };
}

abbrev with_items : Sender Client → List (Option Client) → Sender Client
with_items s l = record s { to_server = record (s.to_server) { items = l } }

none_more :
    (s : Sender Client)
    → ◌≡◌ {A = Outcome Sender.Error (Sender Client)} (ok s) (ok (with_clients s []))
none_more s = ap (λ l. ok (with_items s l)) (sym (append-nil s.to_server.items))

new_client-open :
    (c : Client) (s : Sender Client)
    → s.to_server.receivers ≡ 1
    → new_client c s ≡ ok (with_clients s (some c ∷ []))
unfolding new_client
new_client-open c s e = rw e refl

-- Whichever kind of socket a listener has: the clients that come before the first failure to accept
-- one are all queued, in order, and no other; the failure ends the listener.
pub listener_loop-accepted :
    (client : ℕ → Client) (incoming : List (Option ℕ)) (s : Sender Client)
    → s.to_server.receivers ≡ 1
    → listener_loop client incoming s
      ≡ ok (with_clients s (map (λ socket. some (client socket)) (accepted incoming)))
unfolding listener_loop
listener_loop-accepted client [] s e = none_more s
listener_loop-accepted client (none ∷ incoming) s e = none_more s
listener_loop-accepted client (some socket ∷ incoming) s e =
    rw (new_client-open (client socket) s e, listener_loop)
      (listener_loop-accepted client incoming (with_clients s (some (client socket) ∷ [])) e
        ∙ ap (λ l. ok (with_items s l))
            (append_assoc s.to_server.items (some (client socket) ∷ [])
              (map (λ socket. some (client socket)) (accepted incoming))))

-- The listeners that the arguments ask for.
abbrev pub asked : Option String → Option String → List Listener
asked none none = []
asked none (some path) = unix_listener path ∷ []
asked (some address) none = tcp_listener address ∷ []
asked (some address) (some path) = tcp_listener address ∷ unix_listener path ∷ []

-- Nothing is in the way of the listeners.
pub record Free (sockets : Sockets) : Type 0 where
  pub tcp : (address : String) → sockets.tcp_binds address ≡ true
  pub absent : (path : String) → sockets.unix_exists path ≡ false
  pub unix : (path : String) → sockets.unix_binds path ≡ true

scope-listens :
    (bound listening : List Listener) (c : Config) (core_ids : Option (List ℕ))
    (listeners : List Listener) (limit : ℕ)
    → length listeners ≤ limit
    → scope bound listening c core_ids listeners limit ≡ record {
      bound = bound;
      listening = listening ++ listeners;
      workers = take (limit - length listeners) (sender_plan c (cpu_ids c.cpu_affinity core_ids));
      exit = returned;
    }
scope-listens bound listening c core_ids [] limit h =
    cc (append-nil listening, minus_zero, (start-sender_plan c core_ids limit).0)
  where
    minus_zero : limit - length {A = Listener} [] ≡ limit
    minus_zero = omega arith
scope-listens bound listening c core_ids (listener ∷ listeners) zero h = absurd (omega arith)
scope-listens bound listening c core_ids (listener ∷ listeners) (suc limit) h =
    scope-listens bound (listening ++ listener ∷ []) c core_ids listeners limit (omega arith)
    ∙ cc (append_assoc listening (listener ∷ []) listeners, minus_suc)
  where
    minus_suc : suc limit - suc (length listeners) ≡ limit - length listeners
    minus_suc = omega arith

-- What a `main` with these listeners has done when nothing is in the way.
abbrev pub listens : Args → World → List Listener → Ran
listens args world listeners = record {
  bound = listeners;
  listening = listeners;
  workers =
      take (world.limit - length listeners)
        (sender_plan (config args) (cpu_ids args.cpu_affinity world.core_ids));
  exit = returned;
}

main-by_case :
    (args : Args) (world : World) (sockets : Sockets) (q : RaptorQ) (permits : ℕ)
    (from_tcp from_unix : Option String)
    → world.has_logger ≡ true
    → RaptorQ.new args.to_mtu args.block args.repair 0 ≡ ok q
    → world.semaphore args.max_clients ≡ some permits
    → Free sockets
    → args.from_tcp ≡ from_tcp
    → args.from_unix ≡ from_unix
    → length (asked from_tcp from_unix) ≤ world.limit
    → main world sockets args ≡ listens args world (asked from_tcp from_unix)
unfolding main new
main-by_case args world sockets q permits none none logged sized made free e e' room =
    rw (logged, sized, made, e, e')
      (scope-listens [] [] (config args) world.core_ids [] world.limit room)
main-by_case args world sockets q permits (some a) none logged sized made free e e' room =
    rw (logged, sized, made, e, e', free.tcp a)
      (scope-listens (asked (some a) none) [] (config args) world.core_ids (asked (some a) none)
        world.limit room)
main-by_case args world sockets q permits none (some p) logged sized made free e e' room =
    rw (logged, sized, made, e, e', free.absent p, free.unix p)
      (scope-listens (asked none (some p)) [] (config args) world.core_ids (asked none (some p))
        world.limit room)
main-by_case args world sockets q permits (some a) (some p) logged sized made free e e' room =
    rw (logged, sized, made, e, e', free.tcp a, free.absent p, free.unix p)
      (scope-listens (asked (some a) (some p)) [] (config args) world.core_ids
        (asked (some a) (some p)) world.limit room)

-- With a logger, a configuration that `RaptorQ::new` accepts, a semaphore, addresses and paths that can
-- be bound, and threads for the listeners: `main` binds and runs exactly the listeners that the
-- arguments ask for, and of the sender's threads as many of the first as the system let be spawned.
pub main-listens :
    (args : Args) (world : World) (sockets : Sockets) (q : RaptorQ) (permits : ℕ)
    → world.has_logger ≡ true
    → RaptorQ.new args.to_mtu args.block args.repair 0 ≡ ok q
    → world.semaphore args.max_clients ≡ some permits
    → Free sockets
    → length (asked args.from_tcp args.from_unix) ≤ world.limit
    → main world sockets args ≡ listens args world (asked args.from_tcp args.from_unix)
main-listens args world sockets q permits logged sized made free room =
    main-by_case args world sockets q permits args.from_tcp args.from_unix logged sized made free
      refl refl room
