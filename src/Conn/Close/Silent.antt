-- ===== src/Conn/Close/Silent.antt =====
-- conn.go: nothing is sent after the alert close_notify, and errors of writing stay.
use electricity.Common.{
  ◌<◌, take-append-drop, ℕ, ◌≡◌, ◌⊎◌, inl, inr, refl, sym, ◌∙◌, true, false, none, some, List, [],
  ◌∷◌, ◌&&◌, ◌==◌, ltb, length, take, drop, arith, Bool-cases, Option-cases, length-take, subst,
}
use electricity.Const.{version_tls10}
use electricity.Const.RecordType
use electricity.Record.HalfConn.{Primitives}
use electricity.Conn.State.{alert_close_notify}
use electricity.Conn.Write.{
  WriteError, shutdown, internal, Output, Written, wrote, broken, write_panics, unfinished, Network,
  write_record_locked, send_alert_locked, alert_sent, write_loop,
}
use electricity.Conn.Write.Sizes.{IsSmall}
use electricity.Conn.Write.Trail.{
  Accounts, Writes, Writes-append, Stops, Writes-longer, Writes-add_count, Writes-Accounts,
  add_count,
}
use electricity.Conn.Write.Total.{write_record_locked-Writes, write_alert-Accounts}
use electricity.Conn.Close.{
  is_cbc, keep_error, notified, notify_result, write_second, write_data, close_notify,
}

module _ {S : Type 0} where
  -- A result whose error the connection has, too.
  abbrev pub with_error : Written S → Written S
  with_error (wrote c n) = wrote (record c { err = none }) n
  with_error (broken c n e) = broken (record c { err = some e }) n e
  with_error (write_panics c) = write_panics c
  with_error (unfinished c) = unfinished c

  keep_error-with_error : (m : ℕ) (r : Written S) → keep_error m r ≡ with_error (add_count m r)
  unfolding keep_error
  keep_error-with_error m (wrote c n) = refl
  keep_error-with_error m (broken c n e) = refl
  keep_error-with_error m (write_panics c) = refl
  keep_error-with_error m (unfinished c) = refl

module _ {S : Type 0} (p : Primitives S) (net : Network S) where
  -- Nothing more is sent: a further `closeNotify` returns the same again, and a write an error.
  abbrev pub Quiet : List ℕ → Written S → Type 0
  Quiet bytes (wrote c n) =
      (close_notify p net c ≡ wrote c 0)
      × (e : WriteError) × (write_data p net bytes c ≡ broken c 0 e)
  Quiet bytes (broken c n e) =
      (close_notify p net c ≡ broken c 0 e)
      × (e' : WriteError) × (write_data p net bytes c ≡ broken c 0 e')
  Quiet bytes (write_panics c) = Unit {0}
  Quiet bytes (unfinished c) = ⊥

  write_data-refused :
      (bytes : List ℕ) (c : Output S)
      → c.close_notify_sent ≡ true
      → (e : WriteError) × (write_data p net bytes c ≡ broken c 0 e)
  unfolding write_data
  write_data-refused bytes c closed = elim (Option-cases c.err) [
    | inr (e, h) ↦ (e, ground (arith, h))
    | inl h ↦ elim (Bool-cases c.handshake_complete) [
      | inl complete ↦ (shutdown, ground (arith, h, complete, closed))
      | inr early ↦ (internal, ground (arith, h, early))
    ]
  ]

  close_notify-again :
      (c : Output S) → c.close_notify_sent ≡ true → close_notify p net c ≡ notify_result c
  unfolding close_notify
  close_notify-again c closed = ground (arith, closed)

  close_notify-first :
      (c : Output S)
      → c.close_notify_sent ≡ false
      → close_notify p net c ≡ notified (send_alert_locked p net alert_close_notify c)
  unfolding close_notify
  close_notify-first c open_ = ground (arith, open_)

  result_of-Quiet :
      (bytes : List ℕ) (c : Output S) (r : Written S)
      → c.close_notify_sent ≡ true
      → notify_result c ≡ r
      → (r ≡ wrote c 0) ⊎ ((e : WriteError) × (r ≡ broken c 0 e))
      → Quiet bytes r
  result_of-Quiet bytes c r closed same (inl h) =
      let (e, w) = write_data-refused bytes c closed in
      subst (Quiet bytes) (sym h) (close_notify-again c closed ∙ same ∙ h, e, w)
  result_of-Quiet bytes c r closed same (inr (k, h)) =
      let (e, w) = write_data-refused bytes c closed in
      subst (Quiet bytes) (sym h) (close_notify-again c closed ∙ same ∙ h, e, w)

  notify_result-cases :
      (c : Output S)
      → (notify_result c ≡ wrote c 0) ⊎ ((e : WriteError) × (notify_result c ≡ broken c 0 e))
  unfolding notify_result
  notify_result-cases c = elim (Option-cases c.close_notify_err) [
    | inl e ↦ inl (ground (arith, e))
    | inr (k, e) ↦ inr (k, ground (arith, e))
  ]

  notified-Quiet :
      (bytes : List ℕ) (total : ℕ) (r : Written S) → Accounts 0 total r → Quiet bytes (notified r)
  unfolding notified close_notify notify_result
  notified-Quiet bytes total (wrote c n) h =
      let c' : Output S = record c { close_notify_err = none; close_notify_sent = true } in
      let (e, w) = write_data-refused bytes c' refl in (refl, e, w)
  notified-Quiet bytes total (broken c n k) h =
      let c' : Output S = record c { close_notify_err = some k; close_notify_sent = true } in
      let (e, w) = write_data-refused bytes c' refl in (refl, e, w)
  notified-Quiet bytes total (write_panics c) h = tt
  notified-Quiet bytes total (unfinished c) h = h

  alert_sent-ends :
      (r : Written S)
      → Accounts 0 2 r
      → (n : ℕ) × Accounts 0 n (alert_sent p net alert_close_notify r)
  unfolding alert_sent
  alert_sent-ends (wrote c n) h = (2, h)
  alert_sent-ends (broken c n e) h = (2, h)
  alert_sent-ends (write_panics c) h = (2, tt)
  alert_sent-ends (unfinished c) h = elim h [ ]

module _ {S : Type 0} (p : Primitives S) (net : Network S) (small : IsSmall p) where
  send_alert_locked-ends :
      (c : Output S) → (n : ℕ) × Accounts 0 n (send_alert_locked p net alert_close_notify c)
  unfolding send_alert_locked
  send_alert_locked-ends c =
      alert_sent-ends p net (write_loop p net 2 RecordType.alert (1 ∷ (0 ∷ [])) 0 c)
        (write_alert-Accounts p net small 1 0 c)

  -- After `closeNotify` nothing more is sent: a further one returns the same again without sending an
  -- alert, and a write of any bytes returns an error and changes nothing.
  pub close_notify-Quiet :
      (bytes : List ℕ) (c : Output S) → Quiet p net bytes (close_notify p net c)
  close_notify-Quiet bytes c = elim (Bool-cases c.close_notify_sent) [
    | inl e ↦
        subst (Quiet p net bytes) (sym (close_notify-again p net c e))
          (result_of-Quiet p net bytes c (notify_result c) e refl (notify_result-cases p net c))
    | inr e ↦
        let (n, ends) = send_alert_locked-ends c in
        subst (Quiet p net bytes) (sym (close_notify-first p net c e))
          (notified-Quiet p net bytes n (send_alert_locked p net alert_close_notify c) ends)
  ]

  module _ (bytes : List ℕ) (c : Output S) (no_err : c.err ≡ none)
      (complete : c.handshake_complete ≡ true) (open_ : c.close_notify_sent ≡ false) where
    -- What a write of application data comes to.
    abbrev WritesData : Written S → Type 0
    WritesData result =
        (r : Written S) × Writes p net RecordType.application_data c bytes 0 r
        × Accounts 0 (length bytes) r
        × (result ≡ with_error r)

    write_data-whole :
        (ltb 1 (length bytes) && ((c.vers == version_tls10) && is_cbc c.half.cipher)) ≡ false
        → write_data p net bytes c
          ≡ keep_error 0 (write_record_locked p net RecordType.application_data bytes c)
    unfolding write_data
    write_data-whole one = ground (arith, no_err, complete, open_, one)

    write_data-split :
        (ltb 1 (length bytes) && ((c.vers == version_tls10) && is_cbc c.half.cipher)) ≡ true
        → write_data p net bytes c
          ≡ write_second p net
              (drop 1 bytes)
              (write_record_locked p net RecordType.application_data (take 1 bytes) c)
    unfolding write_data
    write_data-split two = ground (arith, no_err, complete, open_, two)

    first-WritesData :
        (first : Written S)
        → Writes p net RecordType.application_data c (take 1 bytes) 0 first
        → Stops p net RecordType.application_data first
        → WritesData (with_error first)
    first-WritesData first w stop =
        let typ = RecordType.application_data in
        let whole =
          subst (λ l. Writes p net typ c l 0 first) (take-append-drop 1 bytes)
            (Writes-longer p net typ (drop 1 bytes) w stop) in
        (first, whole, Writes-Accounts p net typ whole, refl)

    write_second-WritesData :
        (first : Written S)
        → Writes p net RecordType.application_data c (take 1 bytes) 0 first
        → Accounts 0 1 first
        → 1 < length bytes
        → WritesData (write_second p net (drop 1 bytes) first)
    unfolding write_second
    write_second-WritesData (wrote c₁ n) w counted long =
        let typ = RecordType.application_data in
        let others = drop 1 bytes in
        let second = write_record_locked p net typ others c₁ in
        let (w₂, _) = write_record_locked-Writes p net typ small others c₁ refl in
        let one : 1 ≡ n = omega (arith, counted) in
        let from_one =
          subst (λ k. Writes p net typ c₁ others k (add_count 1 second)) one
            (Writes-add_count p net typ 1 w₂) in
        let both = Writes-append p net typ w c₁ n others (add_count 1 second) refl from_one in
        let whole =
          subst (λ l. Writes p net typ c l 0 (add_count 1 second)) (take-append-drop 1 bytes)
            both in
        (add_count 1 second, whole, Writes-Accounts p net typ whole, keep_error-with_error 1 second)
    write_second-WritesData (broken c₁ n e) w counted long = first-WritesData (broken c₁ n e) w tt
    write_second-WritesData (write_panics c₁) w counted long =
        first-WritesData (write_panics c₁) w tt
    write_second-WritesData (unfinished c₁) w counted long = elim counted [ ]

    -- `Write` after the handshake, with no error before and no close_notify sent, ends: a call of
    -- `writeRecordLocked`, or two with the split of TLS 1.0, put all bytes into records one after the
    -- other, which the buffer or the network took, and all are counted with nil; or they stop at a record
    -- that `encrypt` refuses or the network cuts, and fewer are counted with an error, which stays for all
    -- later writes; it panics only where `encrypt` panics.
    pub write_data-Writes :
        (r : Written S) × Writes p net RecordType.application_data c bytes 0 r
        × Accounts 0 (length bytes) r
        × (write_data p net bytes c ≡ with_error r)
    write_data-Writes =
        elim (Bool-cases
          (ltb 1 (length bytes) && ((c.vers == version_tls10) && is_cbc c.half.cipher))) [
            | inr e ↦
                let (w, counted) =
                  write_record_locked-Writes p net RecordType.application_data small bytes c refl in
                let r = write_record_locked p net RecordType.application_data bytes c in
                (
                  add_count 0 r,
                  Writes-add_count p net RecordType.application_data 0 w,
                  Writes-Accounts p net RecordType.application_data
                      (Writes-add_count p net RecordType.application_data 0 w),
                  write_data-whole e ∙ keep_error-with_error 0 r,
                )
            | inl e ↦
                let first =
                  write_record_locked p net RecordType.application_data (take 1 bytes) c in
                let (w, counted) =
                  write_record_locked-Writes p net RecordType.application_data small (take 1 bytes)
                    c refl in
                let size : length (take 1 bytes) ≡ 1 = ground (arith, length-take 1 bytes, e) in
                let (r, whole, all_, same) =
                  write_second-WritesData first w (subst (λ n. Accounts 0 n first) size counted)
                    (ground arith) in
                (r, whole, all_, write_data-split e ∙ same)
          ]
