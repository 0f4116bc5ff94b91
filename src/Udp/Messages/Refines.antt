-- ===== src/Udp/Messages/Refines.antt =====
-- `SendM` of src/udp.rs over its structures does what `Udp.send` says.
use lidi.Prelude.{
  ℕ, zero, suc, ◌+◌, ◌≡◌, ◌≢◌, ◌⊎◌, inl, inr, refl, ap, ◌∙◌, Option, none, some, List, [], ◌∷◌, map,
  length, replicate, length-replicate, ne→==,
}
use native.Mathlib.Decide.{ℕ_discrete}
use lidi.Prelude.Outcome.{Outcome, ok, ◌>>=◌, bind_through}
use lidi.Protocol.Crate.{Raptorq}
use lidi.Udp
use lidi.Udp.{Error, Socket, submit, fits, send_each, send_chunks, with_mode}
use lidi.Udp.Kernel.{Mmsghdr, zeroed_mmsghdr, zeroed_iovec, Kernel, Documented}
use lidi.Udp.Messages.{SendM, msg, mmsg, headers, new, send_datagrams, send}
use lidi.Udp.Messages.Gathers.{Addressed, Pointing}
use lidi.Udp.Messages.Rounds.{
  last_vector, last_headers, last_vectors, send_msgs-each, send_mmsgs-chunks, last_headers-Pointing,
  length-last_vectors,
}

-- Structures of `SendM` that are ready for datagrams to `dest`.
abbrev Ready : Option ℕ → List ℕ → SendM → Type 0
Ready batch_send dest (msg h v) = Addressed dest 0 h × ((batch_send ≡ none) ⊎ (batch_send ≡ some 1))
Ready batch_send dest (mmsg n hs vs) =
    (batch_send ≡ some n) × (n ≢ 1) × (length hs ≡ n) × (length vs ≡ n) × Pointing dest 0 hs

headers-Pointing :
    (dest : List ℕ) (i : ℕ) (hs : List Mmsghdr) → Pointing dest i (headers dest (length dest) i hs)
unfolding headers
headers-Pointing dest i [] = tt
headers-Pointing dest i (h ∷ hs) = (
  record { name = refl; namelen = refl; iov = refl; one = refl },
  headers-Pointing dest (i + 1) hs,
)

length-headers :
    (dest : List ℕ) (len i : ℕ) (hs : List Mmsghdr) → length (headers dest len i hs) ≡ length hs
unfolding headers
length-headers dest len i [] = refl
length-headers dest len i (h ∷ hs) = ap suc (length-headers dest len (i + 1) hs)

new-Ready :
    (batch_send : Option ℕ) (dest : List ℕ)
    → Ready batch_send dest (new batch_send dest (length dest))
unfolding new
new-Ready none dest = (record { name = refl; namelen = refl; iov = refl; one = refl }, inl refl)
new-Ready (some n) dest = elim (ℕ_discrete n 1) [
  | yes e ↦ rw e (record { name = refl; namelen = refl; iov = refl; one = refl }, inr refl)
  | no ne ↦ rw (ne→== n 1 ne) (
    refl,
    ne,
    length-headers dest (length dest) 0 (replicate n zeroed_mmsghdr)
        ∙ length-replicate n zeroed_mmsghdr,
    length-replicate n zeroed_iovec,
    headers-Pointing dest 0 (replicate n zeroed_mmsghdr),
  )
]

abbrev pub sent_all :
    (crate : Raptorq) → Option ℕ → List (List crate.Packet) → Socket → Outcome Error Socket
sent_all crate batch_send [] s = ok s
sent_all crate batch_send (packets ∷ queue) s =
    Udp.send crate batch_send packets s >>= sent_all crate batch_send queue

module _ (kernel : Kernel) (peer : List ℕ) where
  -- What goes to `peer` of the packets of a whole run of the worker, through the structures.
  abbrev pub send_all :
      (crate : Raptorq) → SendM → List (List crate.Packet) → Socket → Outcome Error Socket
  send_all crate m [] s = ok s
  send_all crate m (packets ∷ queue) s =
      send kernel peer crate m packets s >>= λ r. send_all crate r.0 queue r.1

module _ (kernel : Kernel) (documented : Documented kernel) where
  -- What one use of the structures does, and that it leaves them ready.
  record Sends (batch_send : Option ℕ) (dest : List ℕ) (m : SendM) (ds : List (List ℕ)) (s : Socket)
      : Type 0 where
    after : SendM
    ready : Ready batch_send dest after
    same : send_datagrams kernel dest m ds s ≡ (with_mode batch_send ds s >>= λ s'. ok (after, s'))

  send_datagrams-Sends :
      (batch_send : Option ℕ) (dest : List ℕ) (m : SendM) (ds : List (List ℕ)) (s : Socket)
      → Ready batch_send dest m
      → Sends batch_send dest m ds s
  send_datagrams-Sends batch_send dest (msg h v) ds s (a, inl e) = record {
    after = msg h (last_vector v ds);
    ready = (a, inl e);
    same = rw e (send_msgs-each kernel documented dest h v ds s a);
  }
  send_datagrams-Sends batch_send dest (msg h v) ds s (a, inr e) = record {
    after = msg h (last_vector v ds);
    ready = (a, inr e);
    same = rw e (send_msgs-each kernel documented dest h v ds s a);
  }
  send_datagrams-Sends batch_send dest (mmsg zero hs vs) ds s r = record {
    after = mmsg zero hs vs;
    ready = r;
    same = rw r.0;
  }
  send_datagrams-Sends batch_send dest (mmsg (suc n) hs vs) ds s r =
      let (p, len) = last_headers-Pointing dest (length ds) (suc n) ds hs r.4 in
      record {
        after =
            mmsg (suc n) (last_headers (length ds) (suc n) ds hs)
              (last_vectors (length ds) (suc n) ds vs);
        ready = (r.0, r.1, len ∙ r.2, length-last_vectors (length ds) (suc n) ds vs ∙ r.3, p);
        same = rw r.0 (
            rw (ne→== (suc n) 1 r.1) (
              send_mmsgs-chunks kernel documented dest (length ds) (suc n) hs vs ds s r.4 r.2 r.3));
      }

  send_all-Ready :
      (crate : Raptorq) (batch_send : Option ℕ) (dest : List ℕ) (m : SendM)
      (queue : List (List crate.Packet)) (s : Socket)
      → Ready batch_send dest m
      → send_all kernel dest crate m queue s ≡ sent_all crate batch_send queue s
  unfolding send Udp.send
  send_all-Ready crate batch_send dest m [] s r = refl
  send_all-Ready crate batch_send dest m (packets ∷ queue) s r =
      let sends = send_datagrams-Sends batch_send dest m (map crate.serialize packets) s r in
      rw sends.same (
        bind_through (with_mode batch_send (map crate.serialize packets) s) (λ s. (sends.after, s))
          _ _ (λ s'. send_all-Ready crate batch_send dest sends.after queue s' sends.ready))

  -- The structures of `SendM::new` for a destination, used again and again: whatever the kernel takes, and
  -- whatever is left in them of earlier datagrams, it is given exactly the datagrams that `Udp.send`
  -- says, with the same outcome, errors and panics included.
  pub send_all-refines :
      (crate : Raptorq) (batch_send : Option ℕ) (dest : List ℕ) (queue : List (List crate.Packet))
      (s : Socket)
      → send_all kernel dest crate (new batch_send dest (length dest)) queue s
        ≡ sent_all crate batch_send queue s
  send_all-refines crate batch_send dest queue s =
      send_all-Ready crate batch_send dest (new batch_send dest (length dest)) queue s
        (new-Ready batch_send dest)
