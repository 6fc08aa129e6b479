-- ===== src/Promptness/Client.antt =====
-- The uses of src/receiver.rs that are prompt: any calls, then one that ends the receiver.
use oneshot.Prelude.{
  ℕ, ◌≡◌, ◌⊎◌, inl, inr, sym, subst, true, Option, none, List, [], ◌∷◌, Result, ok, err, arith,
}
use oneshot.States
use oneshot.Program.{Program, ret, ◌>>=◌, ◌>>◌}
use oneshot.Promptness.{is_final, IsDone, Never, AnyEnd, CallEnd, Quick, Finals, Prompt}
use oneshot.Promptness.Sequence.{Quick-mono, Prompt-bind, Prompt-Finals, Prompt-mono}
use oneshot.Promptness.Methods.{
  eight, try_recv-Prompt, recv_ref-Prompt, is_closed-Prompt, has_message-Prompt,
  recv_timeout-Prompt, recv_deadline-Prompt, recv-Prompt, drop-Prompt,
}
use oneshot.Receiver
use oneshot.Receiver.Timed
use oneshot.Client.{
  ReceiverCall, try_recv, recv_ref, is_closed, has_message, recv_timeout, recv_deadline,
  ReceiverEnd, recv, drop, to_option, prepend, call, finish, receiver_client,
}

-- Eight effects for each call and for the end.
abbrev pub effects_left : List ReceiverCall → ℕ
effects_left [] = 8
effects_left (c ∷ cs) = eight (effects_left cs)

module _ {T : Type 0} (n : ℕ) where
  to_option-Quick :
      {E : Type 0} (left s : ℕ) (r : Result T E)
      → CallEnd n left s r
      → Quick (CallEnd n) left s (to_option r)
  to_option-Quick left s (ok m) h = h
  to_option-Quick left s (err e) h = h

  to_option-Prompt :
      {E : Type 0} (r : Result T E) → Prompt (CallEnd n) Never (eight n) (to_option r)
  to_option-Prompt (ok m) = ground arith
  to_option-Prompt (err e) = ground arith

  result-Prompt :
      {E : Type 0} (p : Program T (Result T E))
      → Prompt (CallEnd n) Never (eight n) p
      → Prompt (CallEnd n) Never (eight n) (p >>= to_option)
  result-Prompt p h =
      Prompt-bind (CallEnd n) (CallEnd n) to_option to_option-Quick Never Never (λ q d. d) (eight n)
        p to_option-Prompt h

  test-Prompt :
      {A : Type 0} (p : Program T A)
      → Prompt (CallEnd n) Never (eight n) p
      → Prompt {R = Option T} (CallEnd n) Never (eight n) (p >> ret none)
  test-Prompt p h =
      Prompt-bind (CallEnd n) (CallEnd n) _ (λ left s r e. e) Never Never (λ q d. d) (eight n) p
        (λ r. ground arith) h

module _ (T : Type 0) (n : ℕ) where
  pub call-Prompt :
      (fuel : ℕ) (c : ReceiverCall) → Prompt {T = T} (CallEnd n) Never (eight n) (call fuel c)
  unfolding call
  call-Prompt fuel try_recv = result-Prompt n Receiver.try_recv (try_recv-Prompt T n)
  call-Prompt fuel recv_ref = result-Prompt n (Receiver.recv_ref fuel) (recv_ref-Prompt T n fuel)
  call-Prompt fuel is_closed = test-Prompt n Receiver.is_closed (is_closed-Prompt T n)
  call-Prompt fuel has_message = test-Prompt n Receiver.has_message (has_message-Prompt T n)
  call-Prompt fuel (recv_timeout last_instant delay) =
      result-Prompt n (Timed.recv_timeout fuel last_instant delay)
        (recv_timeout-Prompt T n fuel last_instant delay)
  call-Prompt fuel (recv_deadline deadline) =
      result-Prompt n (Timed.recv_deadline fuel deadline) (recv_deadline-Prompt T n fuel deadline)

final-cases : (s : ℕ) → is_final s ≡ true → (s ≡ States.message) ⊎ (s ≡ States.disconnected)
final-cases s h = ground arith

module _ {T : Type 0} where
  IsDone-bind :
      {A B : Type 0} (f : A → B) (p : Program T A) → IsDone p → IsDone (p >>= λ r. ret (f r))
  IsDone-bind f (ret r) h = tt
  IsDone-bind f _ h = elim h [ ]

  pub Finals-Quick :
      {R : Type 0} (n s : ℕ) (p : Program T R)
      → is_final s ≡ true
      → Finals AnyEnd n p
      → Quick AnyEnd n s p
  Finals-Quick n s p e h = elim (final-cases s e) [
    | inl e ↦ subst (λ x. Quick AnyEnd n x p) (sym e) h.0
    | inr e ↦ subst (λ x. Quick AnyEnd n x p) (sym e) h.1
  ]

  -- The rest of a client, whose result is worked into one.
  module _ {A B : Type 0} (f : A → B) (n : ℕ) (p : Program T A) (h : Prompt AnyEnd IsDone n p) where
    pub mapped-Prompt : Prompt AnyEnd IsDone n (p >>= λ r. ret (f r))
    mapped-Prompt =
        Prompt-bind AnyEnd AnyEnd _ (λ left s r e. tt) IsDone IsDone (IsDone-bind f) n p
          (λ r. (tt, tt)) h

    mapped-Quick :
        {R : Type 0} (left s : ℕ) (o : R)
        → CallEnd n left s o
        → Quick AnyEnd left s (p >>= λ r. ret (f r))
    mapped-Quick left s o e =
        Quick-mono n left s _ e.0
          (Finals-Quick n s _ e.1 (Prompt-Finals AnyEnd IsDone n _ mapped-Prompt))

  -- Something else before it.
  pub then-Prompt :
      {O A B : Type 0} (n : ℕ) (q : Program T O) (p : Program T A) (f : O → A → B)
      → Prompt (CallEnd n) Never (eight n) q
      → Prompt AnyEnd IsDone n p
      → Prompt AnyEnd IsDone (eight n) (q >>= λ o. p >>= λ r. ret (f o r))
  then-Prompt n q p f k h =
      Prompt-bind (CallEnd n) AnyEnd _ (λ left s o. mapped-Quick (f o) n p h left s o) Never IsDone
        (λ x d. elim d [ ]) (eight n) q
        (λ o. Prompt-mono IsDone n (eight n) _ (omega arith) (mapped-Prompt (f o) n p h)) k

  pub call-then-Prompt :
      {A B : Type 0} (fuel n : ℕ) (c : ReceiverCall) (p : Program T A) (f : Option T → A → B)
      → Prompt AnyEnd IsDone n p
      → Prompt AnyEnd IsDone (eight n) (call fuel c >>= λ o. p >>= λ r. ret (f o r))
  call-then-Prompt fuel n c p f h = then-Prompt n (call fuel c) p f (call-Prompt T n fuel c) h

module _ (T : Type 0) where
  pub finish-Prompt :
      (fuel : ℕ) (end : ReceiverEnd) → Prompt {T = T} AnyEnd IsDone 8 (finish fuel end)
  unfolding finish
  finish-Prompt fuel recv =
      Prompt-bind AnyEnd AnyEnd _ last-Quick Never IsDone (λ q d. elim d [ ]) 8 (Receiver.recv fuel)
        last-Prompt (recv-Prompt T 0 fuel)
    where
      last-Quick :
          {E : Type 0} (left s : ℕ) (r : Result T E)
          → AnyEnd left s r
          → Quick AnyEnd left s (to_option r >>= λ o. ret (prepend o []))
      last-Quick left s (ok m) h = tt
      last-Quick left s (err e) h = tt

      last-Prompt :
          {E : Type 0} (r : Result T E)
          → Prompt AnyEnd IsDone 8 (to_option r >>= λ o. ret (prepend o []))
      last-Prompt (ok m) = (tt, tt)
      last-Prompt (err e) = (tt, tt)
  finish-Prompt fuel drop =
      Prompt-bind AnyEnd AnyEnd _ (λ left s r e. tt) IsDone IsDone (IsDone-bind (λ _. [])) 8
        Receiver.drop (λ r. (tt, tt)) (drop-Prompt T 0)

  pub receiver_client-Prompt :
      (fuel : ℕ) (cs : List ReceiverCall) (end : ReceiverEnd)
      → Prompt {T = T} AnyEnd IsDone (effects_left cs) (receiver_client fuel cs end)
  unfolding receiver_client
  receiver_client-Prompt fuel [] end = finish-Prompt fuel end
  receiver_client-Prompt fuel (c ∷ cs) end =
      call-then-Prompt fuel (effects_left cs) c (receiver_client fuel cs end) prepend
        (receiver_client-Prompt fuel cs end)
