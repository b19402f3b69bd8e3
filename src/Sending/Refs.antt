-- ===== src/Sending/Refs.antt =====
-- The references to the packets of a session, over any interleaving of the threads that send.
use game_programmer_portfoli.Base.{
  ℕ, ◌+◌, ◌≡◌, refl, sym, ap, subst, ◌∙◌, inl, inr, Bool, true, false, not, ◌||◌, List, [], ◌∷◌,
  length, take, drop, is_null, leb, ◌==◌, if◌then◌else◌, arith, count, count-append,
  take-append_drop, Bool-cases,
}
use game_programmer_portfoli.Session.{increase_io_count}
use game_programmer_portfoli.Session.Pool.{is_connected}
use game_programmer_portfoli.Sending.{
  max_send_packet, send_ring_room, SendSession, SendResult, ok, pending, failed, decrease, release,
  try_send_flag, fill_send, sub_ref_sent, wsa_send, finish_send, enqueue_packet, begin_send,
  complete_send, on_failed_completion, clean_up, dis_connect,
}

-- Where the send of a session stands: nobody has the flag; a thread has taken it; that thread has filled
-- `sentPackets`; `WSASend` has them.
pub data Phase : Type 0 where
  idle claimed filled in_flight : Phase

pub record World : Type 0 where
  pub session : SendSession
  pub phase : Phase

-- The phase of a thread that has tried to take the flag, and of one that has finished.
abbrev pub claim : Bool → Phase → Phase
claim taken phase = if taken then claimed else phase

abbrev pub finish : ℕ → Phase
finish send_flag = if send_flag == 0 then idle else in_flight

-- The steps of all threads; a completed SEND is the one in flight.
pub data Step (w : World) : World → Type 0 where
  begins : (id p : ℕ) → Step w (record w { session = (begin_send w.session id p).1 })
  claims : Step w record {
    session = (try_send_flag w.session).1;
    phase = claim (try_send_flag w.session).0 w.phase;
  }
  fills : w.phase ≡ claimed → Step w record { session = fill_send w.session; phase = filled }
  finishes :
      (r : SendResult)
      → w.phase ≡ filled
      → Step w record {
        session = (finish_send r w.session).1;
        phase = finish (finish_send r w.session).1.send_flag;
      }
  completes :
      w.phase ≡ in_flight → Step w record { session = complete_send w.session; phase = idle }
  gives_back : Step w (record w { session = decrease w.session })
  fails : Step w (record w { session = on_failed_completion w.session })
  disconnects : (id : ℕ) → Step w (record w { session = (dis_connect w.session id).1 })
  cleans : w.phase ≡ idle → Step w (record w { session = clean_up w.session })

pub data Reaches (w : World) : World → Type 0 where
  here : Reaches w w
  next : {u v : World} → Reaches w u → Step u v → Reaches w v

-- The flag and the sent packets of each phase.
unfoldable pub Holds : Phase → SendSession → Type 0
Holds idle s = (s.send_flag ≡ 0) × (s.sent_packets ≡ [])
Holds claimed s = (s.send_flag ≡ 1) × (s.sent_packets ≡ [])
Holds filled s = s.send_flag ≡ 1
Holds in_flight s = s.send_flag ≡ 1

-- How often a packet waits, is being sent or was released.
abbrev pub places : SendSession → ℕ → ℕ
places s p = count p s.ring + count p s.sent_packets + count p s.sub_refs

pub record IsCounted (w : World) : Type 0 where
  pub refs : (p : ℕ) → count p w.session.add_refs ≡ places w.session p
  pub flag : Holds w.phase w.session

fill-places : (s : SendSession) (p : ℕ) → s.sent_packets ≡ [] → places (fill_send s) p ≡ places s p
unfolding fill_send count
fill-places s p e = omega (
  arith,
  ap (count p) e,
  ap (count p) (take-append_drop max_send_packet s.ring),
  count-append p (take max_send_packet s.ring) (drop max_send_packet s.ring),
)

-- What a step keeps of the packets and the send.
record Same (s s' : SendSession) : Type 0 where
  refs : (p : ℕ) → count p s'.add_refs + places s p ≡ count p s.add_refs + places s' p
  flag : s'.send_flag ≡ s.send_flag
  sent : s'.sent_packets ≡ s.sent_packets

-- The same phase holds of a session with the same flag and sent packets.
Same-Holds : (f : Phase) (s s' : SendSession) → Same s s' → Holds f s → Holds f s'
unfolding Holds
Same-Holds idle s s' k h = (k.flag ∙ h.0, k.sent ∙ h.1)
Same-Holds claimed s s' k h = (k.flag ∙ h.0, k.sent ∙ h.1)
Same-Holds filled s s' k h = k.flag ∙ h
Same-Holds in_flight s s' k h = k.flag ∙ h

Same-IsCounted :
    (w : World) (s' : SendSession)
    → Same w.session s'
    → IsCounted w
    → IsCounted (record w { session = s' })
Same-IsCounted w s' k c = record {
  refs = λ p. omega (arith, k.refs p, c.refs p);
  flag = Same-Holds w.phase w.session s' k c.flag;
}

if-Same :
    (b : Bool) (s : SendSession) (x y : Bool × SendSession)
    → Same s x.1
    → Same s y.1
    → Same s (if b then x else y).1
if-Same true s x y k l = k
if-Same false s x y k l = l

begin_send-Same : (s : SendSession) (id p : ℕ) → Same s (begin_send s id p).1
unfolding begin_send enqueue_packet decrease release count
begin_send-Same s id p =
    if-Same (not (increase_io_count s.control).0) s _ _
      record { refs = λ q. refl; flag = refl; sent = refl }
      (if-Same (not (s.id == id) || not (is_connected s.state)) s _ _
        record { refs = λ q. refl; flag = refl; sent = refl }
        (if-Same (leb send_ring_room (length s.ring)) s _ _
          record { refs = λ q. omega arith; flag = refl; sent = refl }
          record {
            refs = λ q. omega (arith, count-append q s.ring (p ∷ []));
            flag = refl;
            sent = refl;
          }))

dis_connect-Same : (s : SendSession) (id : ℕ) → Same s (dis_connect s id).1
unfolding dis_connect decrease release
dis_connect-Same s id =
    let same : Same s s = record { refs = λ q. refl; flag = refl; sent = refl } in
    if-Same (not (increase_io_count s.control).0) s _ _ same (
      if-Same (not (s.id == id)) s _ _ record { refs = λ q. refl; flag = refl; sent = refl }
        record { refs = λ q. refl; flag = refl; sent = refl })

claims-IsCounted :
    (s : SendSession) (f : Phase)
    → ((p : ℕ) → count p s.add_refs ≡ places s p)
    → Holds f s
    → IsCounted record { session = (try_send_flag s).1; phase = claim (try_send_flag s).0 f }
unfolding try_send_flag Holds
claims-IsCounted s idle c h =
    let s' = record s { send_flag = 1 } in
    record { refs = c; flag = subst (λ x. Holds (claim (x == 0) idle) s') (sym h.0) (refl, h.1) }
claims-IsCounted s claimed c h =
    let s' = record s { send_flag = 1 } in
    record { refs = c; flag = subst (λ x. Holds (claim (x == 0) claimed) s') (sym h.0) (refl, h.1) }
claims-IsCounted s filled c h =
    let s' = record s { send_flag = 1 } in
    record { refs = c; flag = subst (λ x. Holds (claim (x == 0) filled) s') (sym h) refl }
claims-IsCounted s in_flight c h =
    let s' = record s { send_flag = 1 } in
    record { refs = c; flag = subst (λ x. Holds (claim (x == 0) in_flight) s') (sym h) refl }

null-nil : (xs : List ℕ) → is_null xs ≡ true → xs ≡ []
null-nil [] e = refl
null-nil (x ∷ xs) e = absurd (ground arith)

wsa_send-IsCounted :
    (r : SendResult) (s : SendSession)
    → ((p : ℕ) → count p s.add_refs ≡ places s p)
    → s.send_flag ≡ 1
    → IsCounted record { session = (wsa_send r s).1; phase = finish (wsa_send r s).1.send_flag }
unfolding wsa_send sub_ref_sent decrease release Holds count
wsa_send-IsCounted ok s c f = record {
  refs = c;
  flag = subst (λ x. Holds (finish x) (wsa_send ok s).1) (sym f) f;
}
wsa_send-IsCounted pending s c f = record {
  refs = c;
  flag = subst (λ x. Holds (finish x) (wsa_send pending s).1) (sym f) f;
}
wsa_send-IsCounted failed s c f = record {
  refs = λ p. omega (arith, c p, count-append p s.sent_packets s.sub_refs);
  flag = (refl, refl);
}

finish_send-IsCounted :
    (r : SendResult) (s : SendSession)
    → ((p : ℕ) → count p s.add_refs ≡ places s p)
    → s.send_flag ≡ 1
    → IsCounted
        record { session = (finish_send r s).1; phase = finish (finish_send r s).1.send_flag }
unfolding finish_send sub_ref_sent Holds count
finish_send-IsCounted r s c f =
    let counted = (increase_io_count s.control).0 in
    elim (Bool-cases (is_null s.sent_packets)) [
      | inl e ↦ rw e record { refs = c; flag = (refl, null-nil s.sent_packets e) }
      | inr e ↦ elim (Bool-cases counted) [
        | inl n ↦
            rw (e, n)
              (wsa_send-IsCounted r (record s { control = (increase_io_count s.control).1 }) c f)
        | inr n ↦
            rw (e, n)
              record {
                refs = λ p. omega (arith, c p, count-append p s.sent_packets s.sub_refs);
                flag = (refl, refl);
              }
      ]
    ]

pub Step-IsCounted : (w u : World) → Step w u → IsCounted w → IsCounted u
unfolding Holds fill_send complete_send sub_ref_sent decrease release on_failed_completion clean_up
    count
Step-IsCounted w u (begins id p) c = Same-IsCounted w _ (begin_send-Same w.session id p) c
Step-IsCounted w u claims c = claims-IsCounted w.session w.phase c.refs c.flag
Step-IsCounted w u (fills e) c =
    let h = subst (λ f. Holds f w.session) e c.flag in
    record { refs = λ p. omega (arith, c.refs p, fill-places w.session p h.1); flag = h.0 }
Step-IsCounted w u (finishes r e) c =
    finish_send-IsCounted r w.session c.refs (subst (λ f. Holds f w.session) e c.flag)
Step-IsCounted w u (completes e) c = record {
  refs = λ p. omega (arith, c.refs p, count-append p w.session.sent_packets w.session.sub_refs);
  flag = (refl, refl);
}
Step-IsCounted w u gives_back c =
    Same-IsCounted w _ record { refs = λ p. refl; flag = refl; sent = refl } c
Step-IsCounted w u fails c =
    Same-IsCounted w _ record { refs = λ p. refl; flag = refl; sent = refl } c
Step-IsCounted w u (disconnects id) c = Same-IsCounted w _ (dis_connect-Same w.session id) c
Step-IsCounted w u (cleans e) c =
    let h = subst (λ f. Holds f w.session) e c.flag in
    record {
      refs = λ p. omega (arith, c.refs p, count-append p w.session.ring w.session.sub_refs);
      flag = subst (λ f. Holds f (clean_up w.session)) (sym e) (refl, h.1);
    }
