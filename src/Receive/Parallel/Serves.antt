-- ===== src/Receive/Parallel/Serves.antt =====
-- Every transfer of src/receive/clients.rs is served once, by one of the threads.
use mathlib.Core.Path.{subst}
use mathlib.Core.List.{Mem, Perm, perm_middle, mem-cons_self, mem-append_right}
use mathlib.Core.List.Perm
use lidi.Prelude.{
  ℕ, ◌+◌, ◌-◌, ◌<◌, ◌≡◌, ◌⊎◌, inl, inr, refl, sym, ap, ◌∙◌, Bool, true, List, [], ◌∷◌, ◌++◌, map,
  length, length-append, append_assoc, append-nil, arith,
}
use lidi.Receive.Clients.{Transferring}
use lidi.Receive.Parallel.{
  State, outcome, returns, Step, take, acquire, finish, Reach, here, next, fresh,
}

-- What has been handed to the threads, and not yet returned.
abbrev ahead : State → List Transferring
ahead s = s.serving ++ (s.acquiring ++ s.for_clients)

pulled :
    {A : Type 0} (xs before after rest : List A) (a : A)
    → Perm (xs ++ ((before ++ a ∷ after) ++ rest)) ((xs ++ a ∷ []) ++ ((before ++ after) ++ rest))
pulled xs before after rest a =
    subst (Perm (xs ++ ((before ++ a ∷ after) ++ rest)))
      (sym (append_assoc xs (a ∷ []) ((before ++ after) ++ rest)))
      (Perm.append_left xs (Perm.append_right rest (perm_middle before after)))

map-append : {A B : Type 0} (f : A → B) (xs ys : List A) → map f (xs ++ ys) ≡ map f xs ++ map f ys
map-append f [] ys = refl
map-append f (x ∷ xs) ys = ap (λ l. f x ∷ l) (map-append f xs ys)

module _ (flush : Bool) (max_clients : ℕ) (transfers : List Transferring) where
  -- The transfers that are done, and the permits and threads in use.
  record Inv (s : State) : Type 0 where
    served : List Transferring
    same : s.done ≡ map (outcome flush) served
    all : Perm transfers (served ++ ahead s)
    permits : s.permits + length s.serving ≡ max_clients
    threads : s.idle + (length s.acquiring + length s.serving) ≡ max_clients

  Step-Inv : {s t : State} → Inv s → Step flush s t → Inv t
  Step-Inv {s} v (take x rest others e idle et) = subst Inv (sym et) (record {
    served = v.served;
    same = v.same;
    all =
        subst (λ l. Perm transfers (v.served ++ (s.serving ++ l)))
          (ap (λ l. s.acquiring ++ l) e ∙ sym (append_assoc s.acquiring (x ∷ []) rest)) v.all;
    permits = v.permits;
    threads = omega (arith, v.threads, idle, length-append s.acquiring (x ∷ []));
  })
  Step-Inv {s} v (acquire before after x free e permit et) = subst Inv (sym et) (record {
    served = v.served;
    same = v.same;
    all =
        Perm.trans
          (subst (λ l. Perm transfers (v.served ++ (s.serving ++ (l ++ s.for_clients)))) e v.all)
          (Perm.append_left v.served (pulled s.serving before after s.for_clients x));
    permits = omega (arith, v.permits, permit, length-append s.serving (x ∷ []));
    threads = omega (
      arith,
      v.threads,
      ap (length {A = Transferring}) e,
      length-append before (x ∷ after),
      length-append before after,
      length-append s.serving (x ∷ []),
    );
  })
  Step-Inv {s} v (finish before after x e well et) = subst Inv (sym et) (record {
    served = v.served ++ x ∷ [];
    same =
        ap (λ l. l ++ outcome flush x ∷ []) v.same
        ∙ sym (map-append (outcome flush) v.served (x ∷ []));
    all =
        Perm.trans
          (subst (λ l. Perm transfers (v.served ++ (l ++ (s.acquiring ++ s.for_clients)))) e v.all)
          (pulled v.served before after (s.acquiring ++ s.for_clients) x);
    permits = omega (
      arith,
      v.permits,
      ap (length {A = Transferring}) e,
      length-append before (x ∷ after),
      length-append before after,
    );
    threads = omega (
      arith,
      v.threads,
      ap (length {A = Transferring}) e,
      length-append before (x ∷ after),
      length-append before after,
    );
  })

  Reach-Inv : {s : State} → Reach flush (fresh max_clients transfers) s → Inv s
  Reach-Inv here = record {
    served = [];
    same = refl;
    all = Perm.refl transfers;
    permits = omega arith;
    threads = omega arith;
  }
  Reach-Inv (next r step) = Step-Inv (Reach-Inv r) step

  -- However the threads are interleaved: once no thread holds a transfer and none is queued, each
  -- transfer has been served exactly once, in whatever order, with the result of the client's worker
  -- on that transfer's own channel.
  pub clients_served :
      (s : State)
      → Reach flush (fresh max_clients transfers) s
      → s.serving ++ (s.acquiring ++ s.for_clients) ≡ []
      → (served : List Transferring) × Perm transfers served × (s.done ≡ map (outcome flush) served)
  clients_served s r nothing =
      let v = Reach-Inv r in
      (
        v.served,
        subst (Perm transfers) (ap (λ l. v.served ++ l) nothing ∙ append-nil v.served) v.all,
        v.same,
      )

  can_go_on :
      (s : State) (serving acquiring queue : List Transferring)
      → 0 < max_clients
      → ((x : Transferring) → Mem x transfers → returns (outcome flush x).1 ≡ true)
      → Inv s
      → s.serving ≡ serving
      → s.acquiring ≡ acquiring
      → s.for_clients ≡ queue
      → (ahead s ≡ []) ⊎ ((t : State) × Step flush s t)
  can_go_on s (x ∷ after) acquiring queue some_thread come v e _ _ =
      let held : Mem x (ahead s) =
        subst (λ l. Mem x (l ++ (s.acquiring ++ s.for_clients))) (sym e) mem-cons_self in
      let known = come x (Perm.subset (Perm.symm v.all) x (mem-append_right v.served held)) in
      inr (_, finish [] after x e known refl)
  can_go_on s [] (x ∷ after) queue some_thread come v es e _ = inr (
    _,
    acquire [] after x (s.permits - 1) e
        (omega (arith, some_thread, v.permits, ap (length {A = Transferring}) es)) refl,
  )
  can_go_on s [] [] (x ∷ rest) some_thread come v es ea e = inr (
    _,
    take x rest (s.idle - 1) e
        (omega (
          arith,
          some_thread,
          v.threads,
          ap (length {A = Transferring}) es,
          ap (length {A = Transferring}) ea,
        ))
        refl,
  )
  can_go_on s [] [] [] some_thread come v es ea e = inl (rw (es, ea, e))

  -- Wherever the threads have got to, and whether their clients' workers come back or not: the permits
  -- that are left and the clients that are served are `max_clients` together, and so are the threads
  -- that wait for a transfer, those that wait for a permit, and those that serve a client.
  pub clients_bounded :
      (s : State)
      → Reach flush (fresh max_clients transfers) s
      → (s.permits + length s.serving ≡ max_clients)
        × (s.idle + (length s.acquiring + length s.serving) ≡ max_clients)
  clients_bounded s r = let v = Reach-Inv r in (v.permits, v.threads)

  -- Wherever the threads have got to: if every transfer's worker comes back and there is a thread, one
  -- of the threads can go on, or no thread holds a transfer and none is queued.
  pub clients_progress :
      (s : State)
      → 0 < max_clients
      → ((x : Transferring) → Mem x transfers → returns (outcome flush x).1 ≡ true)
      → Reach flush (fresh max_clients transfers) s
      → (s.serving ++ (s.acquiring ++ s.for_clients) ≡ []) ⊎ ((t : State) × Step flush s t)
  clients_progress s some_thread come r =
      can_go_on s s.serving s.acquiring s.for_clients some_thread come (Reach-Inv r) refl refl refl
