-- ===== src/Sending/Flow.antt =====
-- The packets that wait when a send is in flight: the completions send them, in order.
use game_programmer_portfoli.Base.{
  ℕ, zero, suc, ◌*◌, ◌≤◌, ◌≡◌, refl, sym, ap, ap₂, subst, ◌∙◌, inl, inr, true, false, List, [], ◌∷◌,
  ◌++◌, length, take, drop, is_null, ◌==◌, if◌then◌else◌, arith, append-nil, append_assoc,
  take-append_drop, length-drop, Bool-cases,
}
use game_programmer_portfoli.Session.Open.{IsOpen, increase-IsOpen}
use game_programmer_portfoli.Sending.{
  max_send_packet, SendSession, ok, decrease, try_send_flag, fill_send, sub_ref_sent, wsa_send,
  finish_send, post_send, complete_send, on_send_completion,
}

-- The completions of the sends in flight, handled one after the other, `WSASend` taking each send; on
-- fuel.
unfoldable pub serve : ℕ → SendSession → SendSession
serve zero s = s
serve (suc n) s =
    let rest = serve n (on_send_completion ok s) in if s.send_flag == 0 then s else rest

-- What a completion leaves when packets wait.
record Served (s s' : SendSession) : Type 0 where
  ring : s'.ring ≡ drop max_send_packet s.ring
  posted : s'.posted ≡ s.posted ++ take max_send_packet s.ring
  flag : s'.send_flag ≡ 1
  is_open : IsOpen s'.control

completion-Served :
    (s : SendSession)
    → IsOpen s.control
    → is_null (take max_send_packet s.ring) ≡ false
    → Served s (on_send_completion ok s)
unfolding on_send_completion complete_send post_send try_send_flag fill_send finish_send wsa_send
    sub_ref_sent decrease
completion-Served s o e =
    let k = increase-IsOpen s.control o in
    rw (e, k.0) record { ring = refl; posted = refl; flag = refl; is_open = k.1 }

null-nil : (xs : List ℕ) → is_null (take max_send_packet xs) ≡ true → xs ≡ []
null-nil [] e = refl
null-nil (x ∷ xs) e = absurd (ground arith)

null_false : (xs : List ℕ) → is_null (take max_send_packet xs) ≡ false → 1 ≤ length xs
null_false [] e = absurd (ground arith)
null_false (x ∷ xs) e = omega arith

-- The completion when no packet waits.
record Ended (s s' : SendSession) : Type 0 where
  ring : s'.ring ≡ []
  posted : s'.posted ≡ s.posted
  flag : s'.send_flag ≡ 0
  sent : s'.sent_packets ≡ []

completion-Ended : (s : SendSession) → s.ring ≡ [] → Ended s (on_send_completion ok s)
unfolding on_send_completion complete_send post_send try_send_flag fill_send finish_send wsa_send
    sub_ref_sent decrease
completion-Ended s e = rw e record { ring = refl; posted = refl; flag = refl; sent = refl }

serve_idle : (n : ℕ) (s : SendSession) → s.send_flag ≡ 0 → serve n s ≡ s
unfolding serve
serve_idle zero s e = refl
serve_idle (suc n) s e = rw e refl

serve_step :
    (n : ℕ) (s : SendSession)
    → s.send_flag ≡ 1
    → serve (suc n) s ≡ serve n (on_send_completion ok s)
unfolding serve
serve_step n s f = ap (λ x. if x == 0 then s else serve n (on_send_completion ok s)) f

-- All that waited in `s` is sent, in its order, and nothing is under way.
pub record Sent (s s' : SendSession) : Type 0 where
  pub posted : s'.posted ≡ s.posted ++ s.ring
  pub ring : s'.ring ≡ []
  pub sent : s'.sent_packets ≡ []
  pub flag : s'.send_flag ≡ 0

serve_last : (n : ℕ) (s : SendSession) → s.ring ≡ [] → s.send_flag ≡ 1 → Sent s (serve (suc n) s)
serve_last n s r f =
    let k = completion-Ended s r in
    subst (Sent s) (sym (serve_step n s f ∙ serve_idle n (on_send_completion ok s) k.flag)) record {
      posted = k.posted ∙ sym (ap (λ x. s.posted ++ x) r ∙ append-nil s.posted);
      ring = k.ring;
      sent = k.sent;
      flag = k.flag;
    }

length_zero : (xs : List ℕ) → length xs ≤ 0 → xs ≡ []
length_zero [] h = refl
length_zero (x ∷ xs) h = absurd (omega arith)

-- With a send in flight, no end of the session requested, an operation counted and room for one
-- more, and `WSASend` taking each send: if at most 64 `n` packets wait, the completions of `n + 1`
-- sends, handled one after the other until the flag is down and with nothing else in between, hand
-- all of them to `WSASend`, in the order of the ring, and leave the ring and `sentPackets` empty
-- and the flag down.
pub serve-Sent :
    (n : ℕ) (s : SendSession)
    → length s.ring ≤ max_send_packet * n
    → s.send_flag ≡ 1
    → IsOpen s.control
    → Sent s (serve (suc n) s)
serve-Sent zero s h f o = serve_last zero s (length_zero s.ring (omega (arith, h))) f
serve-Sent (suc n) s h f o = elim (Bool-cases (is_null (take max_send_packet s.ring))) [
  | inl e ↦ serve_last (suc n) s (null-nil s.ring e) f
  | inr e ↦
      let k = completion-Served s o e in
      let s₁ = on_send_completion ok s in
      let l = length-drop max_send_packet s.ring in
      let d = serve-Sent n s₁ (omega (arith, ap (λ x. length x) k.ring, l, h)) k.flag k.is_open in
      subst (Sent s) (sym (serve_step (suc n) s f)) record {
        posted =
            d.posted
            ∙ ap₂ (◌++◌) k.posted k.ring
            ∙ append_assoc s.posted (take max_send_packet s.ring) (drop max_send_packet s.ring)
            ∙ ap (λ x. s.posted ++ x) (take-append_drop max_send_packet s.ring);
        ring = d.ring;
        sent = d.sent;
        flag = d.flag;
      }
]
