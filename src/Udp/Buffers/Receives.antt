-- ===== src/Udp/Buffers/Receives.antt =====
-- `Receive` of src/udp.rs over its structures returns what `Udp.recv` says.
use lidi.Prelude.{
  ℕ, ◌≤◌, ◌≡◌, inl, inr, refl, ap, ◌∙◌, Option, some, List, [], ◌∷◌, length, take, replicate, arith,
  length-take, length-replicate, ne→==,
}
use lidi.Prelude.Outcome.{Outcome, ok, ◌>>=◌, bind_through}
use lidi.Receive.{Datagrams, single}
use lidi.Udp
use lidi.Udp.{Error, Arrival, failed, came, cut}
use lidi.Udp.Kernel.{
  Iovec, Msghdr, Mmsghdr, zeroed_iovec, Kernel, Documented, overwrite, scattered_all,
}
use lidi.Udp.Buffers.{Receive, msg, mmsg, based, vectors, new, filled, recv}
use lidi.Udp.Buffers.Fills.{
  Points, Pointing, Sized, set_headers, set_buffers, length-overwrite, prefix-overwrite,
  scattered_all-set, collect-set,
}
use lidi.Udp.Buffers.Structures.{
  Ready, new-Ready, set_headers-Pointing, length-set_headers, length-set_buffers, set_buffers-Sized,
}

-- What one call does, and that it leaves the structures ready.
record Receives (kernel : Kernel) (size : ℕ) (batch_receive : Option ℕ) (r : Receive)
    (arrival : Arrival) : Type 0 where
  after : Receive
  ready : Ready size batch_receive after
  same :
      recv kernel r arrival
      ≡ (Udp.recv size batch_receive arrival >>= λ datagrams. ok (datagrams, after))

module _ (kernel : Kernel) (documented : Documented kernel) where
  filled-single :
      (size : ℕ) (h : Msghdr) (v : Iovec ℕ) (buffer d : List ℕ)
      → Points 0 h
      → v ≡ based size 0
      → length buffer ≡ size
      → filled h v (kernel.scattered (v ∷ []) h d (buffer ∷ []))
        ≡ ok (single (take size d), msg h v (overwrite (take size d) buffer))
  filled-single size h v buffer d p ev len =
      let base : v.iov_base ≡ some 0 = ap (λ (w : Iovec ℕ). w.iov_base) ev in
      let cut_to : v.iov_len ≡ size = ap (λ (w : Iovec ℕ). w.iov_len) ev in
      ap (filled h v) (
        documented.scatters (v ∷ []) h v d buffer [] []
          (record { place = 0; iov = p.iov; at = refl; one = p.one }) base (omega arith)
        ∙ ap (λ k. some (length (take k d), overwrite (take k d) buffer ∷ [])) cut_to)
      ∙ rw (prefix-overwrite (take size d) buffer)

  scattered-batch :
      (size n : ℕ) (hs : List Mmsghdr) (vs : List (Iovec ℕ)) (ds buffers : List (List ℕ))
      → length ds ≤ n
      → length hs ≡ n
      → length buffers ≡ n
      → vs ≡ vectors size 0 (replicate n zeroed_iovec)
      → Pointing 0 hs
      → Sized size buffers
      → scattered_all kernel vs hs ds buffers
        ≡ some (set_headers size ds hs, set_buffers size ds buffers)
  scattered-batch size n hs vs ds buffers short e e' ev p z = rw ev (
      scattered_all-set kernel documented size (replicate n zeroed_iovec) hs ds [] buffers p z
        (omega arith) (omega arith) (omega (arith, length-replicate n (zeroed_iovec {P = ℕ}))))

  recv-Receives :
      (size : ℕ) (batch_receive : Option ℕ) (r : Receive) (arrival : Arrival)
      → Ready size batch_receive r
      → Receives kernel size batch_receive r arrival
  unfolding recv Udp.recv
  recv-Receives size batch (msg h v buffer) failed (p, ev, len, inl e) = record {
    after = msg h v buffer;
    ready = (p, ev, len, inl e);
    same = rw e;
  }
  recv-Receives size batch (msg h v buffer) failed (p, ev, len, inr e) = record {
    after = msg h v buffer;
    ready = (p, ev, len, inr e);
    same = rw e;
  }
  recv-Receives size batch (msg h v buffer) (came d ds) (p, ev, len, inl e) = record {
    after = msg h v (overwrite (take size d) buffer);
    ready = (p, ev, length-overwrite size d buffer len, inl e);
    same = rw e (filled-single size h v buffer d p ev len);
  }
  recv-Receives size batch (msg h v buffer) (came d ds) (p, ev, len, inr e) = record {
    after = msg h v (overwrite (take size d) buffer);
    ready = (p, ev, length-overwrite size d buffer len, inr e);
    same = rw e (filled-single size h v buffer d p ev len);
  }
  recv-Receives size batch (mmsg n hs vs buffers) failed r = record {
    after = mmsg n hs vs buffers;
    ready = r;
    same = rw (r.0, ne→== n 1 r.1);
  }
  recv-Receives size batch (mmsg n hs vs buffers) (came d ds) r =
      let arrived = take n (d ∷ ds) in
      let short : length arrived ≤ n = omega (arith, length-take n (d ∷ ds)) in
      record {
        after = mmsg n (set_headers size arrived hs) vs (set_buffers size arrived buffers);
        ready = (
          r.0,
          r.1,
          length-set_headers size arrived hs ∙ r.2,
          length-set_buffers size arrived buffers ∙ r.3,
          r.4,
          set_headers-Pointing size 0 arrived hs r.5,
          set_buffers-Sized size arrived buffers r.6,
        );
        same =
            rw (r.0, ne→== n 1 r.1)
              (rw (scattered-batch size n hs vs arrived buffers short r.2 r.3 r.4 r.5 r.6)
                (rw (collect-set size arrived hs buffers (omega arith) (omega arith))));
      }

-- What a run of the worker receives, through the structures and by what they mean.
abbrev pub received_all : ℕ → Option ℕ → List Arrival → Outcome Error (List Datagrams)
received_all size batch_receive [] = ok []
received_all size batch_receive (arrival ∷ arrivals) = do
  datagrams ← Udp.recv size batch_receive arrival
  more ← received_all size batch_receive arrivals
  ok (datagrams ∷ more)

module _ (kernel : Kernel) where
  abbrev pub receive_all : Receive → List Arrival → Outcome Error (List Datagrams)
  receive_all r [] = ok []
  receive_all r (arrival ∷ arrivals) = do
    (datagrams, r') ← recv kernel r arrival
    more ← receive_all r' arrivals
    ok (datagrams ∷ more)

module _ (kernel : Kernel) (documented : Documented kernel) where
  receive_all-Ready :
      (size : ℕ) (batch_receive : Option ℕ) (r : Receive) (arrivals : List Arrival)
      → Ready size batch_receive r
      → receive_all kernel r arrivals ≡ received_all size batch_receive arrivals
  receive_all-Ready size batch_receive r [] ready = refl
  receive_all-Ready size batch_receive r (arrival ∷ arrivals) ready =
      let one = recv-Receives kernel documented size batch_receive r arrival ready in
      rw one.same (
        bind_through (Udp.recv size batch_receive arrival) (λ d. (d, one.after)) _ _
          (λ datagrams. rw (receive_all-Ready size batch_receive one.after arrivals one.ready)))

  -- With a kernel that does what its manual says: the buffers of `Receive::new`, used again and again,
  -- give exactly the datagrams that `Udp.recv` says, cut to the buffers, in order and with the same
  -- outcome, whatever is left in the buffers of earlier datagrams.
  pub receive_all-refines :
      (size : ℕ) (batch_receive : Option ℕ) (arrivals : List Arrival)
      → receive_all kernel (new size batch_receive) arrivals
        ≡ received_all size batch_receive arrivals
  receive_all-refines size batch_receive arrivals =
      receive_all-Ready size batch_receive (new size batch_receive) arrivals
        (new-Ready size batch_receive)
