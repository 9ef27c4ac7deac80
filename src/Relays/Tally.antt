-- ===== src/Relays/Tally.antt =====
-- The counts of relays.rs over all its rows, against the packets that it was told of.
use docsis_monitor.Order.{nat_order}
use docsis_monitor.Relays.Events.{
  Event, step, run, request_seen, reply_seen, tftp_request_seen, tftp_send_seen,
}
use docsis_monitor.Relays.Table.{
  Relays, Relay, entry, note_request, Pending, asked, request, reply, tftp_request, default,
  note_tftp_request, tftp_send, note_tftp_send,
}
use docsis_monitor.Base.{
  u64_mod, length, ℕ, suc, ◌+◌, ◌-◌, ◌≤◌, ◌≡◌, Option, none, List, [], ◌∷◌, arith, refl, ap, ◌∙◌,
  ◌<◌,
}
use docsis_monitor.Relays.Pending.{entry-pending}
use docsis_monitor.Relays.Totals.{
  matched, total_of, dated_lem, reply-total_more, entry-keeps-total, request-total, matched-le,
  request-total_requests, length-request-le, note_reply-answered, reply-total, note_reply-requests,
  note_reply-replies, length-reply-le,
}

-- What the packets said: how many requests, and how many replies.
abbrev pub requests_in : List Event → ℕ
requests_in [] = 0
requests_in (request_seen _ _ _ _ ∷ es) = suc (requests_in es)
requests_in (_ ∷ es) = requests_in es

abbrev pub replies_in : List Event → ℕ
replies_in [] = 0
replies_in (reply_seen _ _ _ _ ∷ es) = suc (replies_in es)
replies_in (_ ∷ es) = replies_in es

-- `n` requests and `m` replies have been recorded, no reply is lost or counted twice, and an
-- answer is never counted without both a request and a reply of its own.
pub record IsTallied (n m : ℕ) (r : Relays) : Type 0 where
  pub requests : total_of (λ v. v.requests) r ≡ n
  pub replies : total_of (λ v. v.replies) r ≡ m
  pub by_requests : total_of (λ v. v.answered) r + length r.pending ≤ n
  pub by_replies : total_of (λ v. v.answered) r ≤ m

request-IsTallied :
    (n m : ℕ) (gi xid : Option ℕ) (now now_ms : ℕ) (r : Relays)
    → n ≤ u64_mod - 2
    → IsTallied n m r
    → IsTallied (suc n) m (request gi xid now now_ms r)
unfolding note_request
request-IsTallied n m gi xid now now_ms r room t =
    let same = λ (f : Relay → ℕ). dated_lem f now r.unrelayed in
    let answers =
      request-total gi xid now now_ms r (λ v. v.answered) (λ v. refl) refl
        (same (λ v. v.answered) refl) in
    record {
      requests = omega (
        arith,
        t.requests,
        request-total_requests gi xid now now_ms r (omega (arith, t.requests)),
      );
      replies =
          request-total gi xid now now_ms r (λ v. v.replies) (λ v. refl) refl
            (same (λ v. v.replies) refl)
          ∙ t.replies;
      by_requests = omega (arith, answers, t.by_requests, length-request-le gi xid now now_ms r);
      by_replies = omega (arith, answers, t.by_replies);
    }

reply-IsTallied :
    (n m : ℕ) (gi xid : Option ℕ) (now now_ms : ℕ) (r : Relays)
    → m ≤ u64_mod - 2
    → IsTallied n m r
    → IsTallied n (suc m) (reply gi xid now now_ms r)
reply-IsTallied n m gi xid now now_ms r room t =
    let answers =
      reply-total_more gi xid now now_ms r (λ v. v.answered) (matched (asked xid r))
        (note_reply-answered (asked xid r) now now_ms) refl
        (λ v. dated_lem (λ v. v.answered) now v refl) (omega (arith, t.by_replies)) in
    record {
      requests =
          reply-total gi xid now now_ms r (λ v. v.requests)
            (note_reply-requests (asked xid r) now now_ms) refl
            (λ v. dated_lem (λ v. v.requests) now v refl)
          ∙ t.requests;
      replies = omega (
        arith,
        t.replies,
        reply-total_more gi xid now now_ms r (λ v. v.replies) 1
            (note_reply-replies (asked xid r) now now_ms) refl
            (λ v. dated_lem (λ v. v.replies) now v refl) (omega (arith, t.replies)),
      );
      by_requests = omega (arith, answers, t.by_requests, length-reply-le gi xid now now_ms r);
      by_replies = omega (arith, answers, t.by_replies, matched-le (asked xid r));
    }

-- A TFTP packet changes none of the three counts and no pending request.
tftp-IsTallied :
    (n m now : ℕ) (g : Relay → Relay) (r : Relays)
    → ((v : Relay)
        → ((g v).requests ≡ v.requests)
          × ((g v).replies ≡ v.replies)
          × ((g v).answered ≡ v.answered))
    → IsTallied n m r
    → IsTallied n m (entry none now g r)
tftp-IsTallied n m now g r h t =
    let kept = λ (f : Relay → ℕ). entry-keeps-total none now g r f in
    let answers =
      kept (λ v. v.answered) (λ v. (h v).2) refl
        (dated_lem (λ v. v.answered) now r.unrelayed refl) in
    record {
      requests =
          kept (λ v. v.requests) (λ v. (h v).0) refl
            (dated_lem (λ v. v.requests) now r.unrelayed refl)
          ∙ t.requests;
      replies =
          kept (λ v. v.replies) (λ v. (h v).1) refl
            (dated_lem (λ v. v.replies) now r.unrelayed refl)
          ∙ t.replies;
      by_requests = omega (
        arith,
        answers,
        t.by_requests,
        ap (λ (m : List (ℕ × Pending)). length m) (entry-pending none now g r),
      );
      by_replies = omega (arith, answers, t.by_replies);
    }

run-IsTallied :
    (n m n' m' : ℕ) (es : List Event) (r : Relays)
    → n + requests_in es ≡ n'
    → m + replies_in es ≡ m'
    → n' < u64_mod
    → m' < u64_mod
    → IsTallied n m r
    → IsTallied n' m' (run r es)
unfolding run
run-IsTallied n m n' m' [] r e f p q t = record {
  requests = omega (arith, t.requests);
  replies = omega (arith, t.replies);
  by_requests = omega (arith, t.by_requests);
  by_replies = omega (arith, t.by_replies);
}
run-IsTallied n m n' m' (request_seen gi xid now now_ms ∷ es) r e f p q t =
    run-IsTallied (suc n) m n' m' es (step r (request_seen gi xid now now_ms)) (omega arith) f p q
      (request-IsTallied n m gi xid now now_ms r (omega arith) t)
run-IsTallied n m n' m' (reply_seen gi xid now now_ms ∷ es) r e f p q t =
    run-IsTallied n (suc m) n' m' es (step r (reply_seen gi xid now now_ms)) e (omega arith) p q
      (reply-IsTallied n m gi xid now now_ms r (omega arith) t)
run-IsTallied n m n' m' (tftp_request_seen now ∷ es) r e f p q t =
    run-IsTallied n m n' m' es (step r (tftp_request_seen now)) e f p q (
      unfold tftp_request note_tftp_request in
      tftp-IsTallied n m now note_tftp_request r (λ v. (refl, refl, refl)) t)
run-IsTallied n m n' m' (tftp_send_seen now ∷ es) r e f p q t =
    run-IsTallied n m n' m' es (step r (tftp_send_seen now)) e f p q (
      unfold tftp_send note_tftp_send in
      tftp-IsTallied n m now note_tftp_send r (λ v. (refl, refl, refl)) t)

-- Over any sequence of fewer than 2^64 packets the rows together hold exactly the requests and
-- the replies that were seen, and the answers that were timed, with the requests that still wait,
-- are no more than the requests, and no more than the replies.
pub run-default-IsTallied :
    (es : List Event)
    → requests_in es < u64_mod
    → replies_in es < u64_mod
    → IsTallied (requests_in es) (replies_in es) (run default es)
run-default-IsTallied es p q =
    run-IsTallied 0 0 (requests_in es) (replies_in es) es default (omega arith) (omega arith) p q
      (record {
        requests = refl;
        replies = refl;
        by_requests = omega arith;
        by_replies = omega arith;
      })
