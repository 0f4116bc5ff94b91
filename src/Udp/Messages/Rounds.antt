-- ===== src/Udp/Messages/Rounds.antt =====
-- The rounds of `SendM::send` of src/udp.rs over its structures.
use lidi.Prelude.{
  ℕ, zero, suc, ◌≤◌, ◌≡◌, refl, ap, ◌∙◌, eq→==, some, true, String, List, [], ◌∷◌, length, take,
  drop, arith, length-take,
}
use lidi.Prelude.Outcome.{Outcome, ok, err, panic, ◌>>=◌}
use lidi.Udp.{Error, Socket, submit, fits, send_each, send_chunks}
use lidi.Udp.Kernel.{Iovec, Msghdr, Mmsghdr, Kernel, Documented}
use lidi.Udp.Messages.{call, same_name, addressed_to, msg, mmsg, vector_of, send_msgs, send_mmsgs}
use lidi.Udp.Messages.Gathers.{
  set_headers, set_vectors, length-set_headers, length-set_vectors, Addressed, Pointing,
  Pointing-set_headers, gathered-one, gathered-set, to, set_chunk-fits,
}

bind_ext :
    {S T : Type 0} (o : Outcome Error S) (f : S → Outcome Error T) (g : S → Outcome Error S)
    (k : S → Outcome Error T)
    → ((s : S) → f s ≡ (g s >>= k))
    → (o >>= f) ≡ ((o >>= g) >>= k)
bind_ext (ok s) f g k h = h s
bind_ext (err e) f g k h = refl
bind_ext panic f g k h = refl

bind_fits :
    {X S T : Type 0} (o : Outcome Error (Unit {0})) (x : X) (f : X → Outcome Error T)
    (g : Outcome Error S) (k : S → Outcome Error T)
    → f x ≡ (g >>= k)
    → ((o >>= λ _. ok x) >>= f) ≡ ((o >>= λ _. g) >>= k)
bind_fits (ok _) x f g k h = h
bind_fits (err e) x f g k h = refl
bind_fits panic x f g k h = refl

same_name_refl : (name : List ℕ) → same_name name name ≡ true
same_name_refl [] = refl
same_name_refl (b ∷ bs) = rw (eq→== b b refl, same_name_refl bs) refl

addressed_to-to : (dest : List ℕ) (ds : List (List ℕ)) → addressed_to dest (to dest ds) ≡ ds
unfolding addressed_to
addressed_to-to dest [] = refl
addressed_to-to dest (d ∷ ds) = rw (same_name_refl dest) (ap (λ l. d ∷ l) (addressed_to-to dest ds))

-- Messages to `dest` all go there.
call-to :
    (dest : List ℕ) (label : String) (ds : List (List ℕ)) (s : Socket)
    → call dest label (some (to dest ds)) s ≡ submit label ds s
unfolding call
call-to dest label ds s = ap (λ l. submit label l s) (addressed_to-to dest ds)

-- The structures of `SendM::Msg` after datagrams, and those of `SendM::Mmsg` after chunks.
abbrev pub last_vector : Iovec (List ℕ) → List (List ℕ) → Iovec (List ℕ)
last_vector v [] = v
last_vector v (d ∷ ds) = last_vector (vector_of d) ds

abbrev pub last_headers : ℕ → ℕ → List (List ℕ) → List Mmsghdr → List Mmsghdr
last_headers zero n ds hs = hs
last_headers (suc fuel) n [] hs = hs
last_headers (suc fuel) n (d ∷ ds) hs =
    last_headers fuel n (drop n (d ∷ ds)) (set_headers (take n (d ∷ ds)) hs)

abbrev pub last_vectors : ℕ → ℕ → List (List ℕ) → List (Iovec (List ℕ)) → List (Iovec (List ℕ))
last_vectors zero n ds vs = vs
last_vectors (suc fuel) n [] vs = vs
last_vectors (suc fuel) n (d ∷ ds) vs =
    last_vectors fuel n (drop n (d ∷ ds)) (set_vectors (take n (d ∷ ds)) vs)

pub last_headers-Pointing :
    (dest : List ℕ) (fuel n : ℕ) (ds : List (List ℕ)) (hs : List Mmsghdr)
    → Pointing dest 0 hs
    → Pointing dest 0 (last_headers fuel n ds hs) × (length (last_headers fuel n ds hs) ≡ length hs)
last_headers-Pointing dest zero n ds hs p = (p, refl)
last_headers-Pointing dest (suc fuel) n [] hs p = (p, refl)
last_headers-Pointing dest (suc fuel) n (d ∷ ds) hs p =
    let chunk = take n (d ∷ ds) in
    let (q, len) =
      last_headers-Pointing dest fuel n (drop n (d ∷ ds)) (set_headers chunk hs)
        (Pointing-set_headers dest 0 chunk hs p) in
    (q, len ∙ length-set_headers chunk hs)

pub length-last_vectors :
    (fuel n : ℕ) (ds : List (List ℕ)) (vs : List (Iovec (List ℕ)))
    → length (last_vectors fuel n ds vs) ≡ length vs
length-last_vectors zero n ds vs = refl
length-last_vectors (suc fuel) n [] vs = refl
length-last_vectors (suc fuel) n (d ∷ ds) vs =
    length-last_vectors fuel n (drop n (d ∷ ds)) (set_vectors (take n (d ∷ ds)) vs)
    ∙ length-set_vectors (take n (d ∷ ds)) vs

module _ (kernel : Kernel) (documented : Documented kernel) where
  pub send_msgs-each :
      (dest : List ℕ) (h : Msghdr) (v : Iovec (List ℕ)) (ds : List (List ℕ)) (s : Socket)
      → Addressed dest 0 h
      → send_msgs kernel dest h v ds s
        ≡ (send_each ds s >>= λ s'. ok (msg h (last_vector v ds), s'))
  unfolding send_msgs send_each
  send_msgs-each dest h v [] s a = refl
  send_msgs-each dest h v (d ∷ ds) s a = rw (gathered-one kernel dest d h [] [] documented a) (
      rw (call-to dest "libc::sendmsg failed" (d ∷ []) s) (
        bind_ext (submit "libc::sendmsg failed" (d ∷ []) s)
          (λ s'. send_msgs kernel dest h (vector_of d) ds s') (λ s'. send_each ds s')
          (λ s'. ok (msg h (last_vector (vector_of d) ds), s'))
          (λ s'. send_msgs-each dest h (vector_of d) ds s' a)))

  pub send_mmsgs-chunks :
      (dest : List ℕ) (fuel n : ℕ) (hs : List Mmsghdr) (vs : List (Iovec (List ℕ)))
      (ds : List (List ℕ)) (s : Socket)
      → Pointing dest 0 hs
      → length hs ≡ n
      → length vs ≡ n
      → send_mmsgs kernel dest fuel n hs vs ds s ≡ (
          send_chunks fuel n ds s >>= λ s'.
          ok (mmsg n (last_headers fuel n ds hs) (last_vectors fuel n ds vs), s'))
  unfolding send_mmsgs send_chunks
  send_mmsgs-chunks dest zero n hs vs [] s p h h' = refl
  send_mmsgs-chunks dest (suc fuel) n hs vs [] s p h h' = refl
  send_mmsgs-chunks dest zero n hs vs (d ∷ ds) s p h h' = refl
  send_mmsgs-chunks dest (suc fuel) n hs vs (d ∷ ds) s p h h' =
      let chunk = take n (d ∷ ds) in
      let left = drop n (d ∷ ds) in
      let hs' = set_headers chunk hs in
      let vs' = set_vectors chunk vs in
      let short : length chunk ≤ n = omega (arith, length-take n (d ∷ ds)) in
      rw (set_chunk-fits chunk hs vs (rw h short) (rw h' short)) (
        bind_fits (fits chunk) (hs', vs') _ _ _
          (rw (gathered-set kernel dest chunk hs vs [] documented p (rw h short) (rw h' short)) (
            rw (call-to dest "libc::sendmmsg" chunk s) (
              bind_ext (submit "libc::sendmmsg" chunk s) _ _ _ (λ s'.
                send_mmsgs-chunks dest fuel n hs' vs' left s'
                  (Pointing-set_headers dest 0 chunk hs p) (length-set_headers chunk hs ∙ h)
                  (length-set_vectors chunk vs ∙ h'))))))
