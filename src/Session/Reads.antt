-- ===== src/Session/Reads.antt =====
-- HandleRead against the frames: any chunk, and any sequence of chunks.
use cxx.Common.{
  ℕ, zero, suc, ◌+◌, ◌≤◌, ◌<◌, ◌≡◌, ◌≢◌, ◌∙◌, refl, ap, false, List, [], ◌∷◌, ◌++◌, append_assoc,
  append-nil, arith, length,
}
use cxx.Session.{MsgNode, Session, Effect, read_some, clear_session, Result, done, exception, fault}
use cxx.Session.HandleRead.{throws, breaks, Round, stop, again, resume, round, loop, handle_read}
use cxx.Session.Outbox.{post}
use cxx.Session.Turns.{Repr, Turns, waits, refuses, leaves, completes}
use cxx.Session.Rounds.{round-Turns}
use cxx.Session.Frame.{Frame, idle, half, body, refused, undefined, after, feed_all}

-- The queue after some messages, of which those are dropped that find more than 1000 in it, and
-- the writes that they start.
abbrev pub post_all : List MsgNode → List (List ℕ) → List MsgNode × List Effect
post_all q [] = (q, [])
post_all q (m ∷ ms) = ((post_all (post q m).0 ms).0, (post q m).1 ++ (post_all (post q m).0 ms).1)

-- The last effect of a read: the next read, or the end of the session.
abbrev pub last_effect : Frame → Effect
last_effect refused = clear_session
last_effect _ = read_some

-- A read that starts from `s`, after effects `out`, and comes to frame `f` with messages `ms`.
pub record Reads (s : Session) (f : Frame) (ms : List (List ℕ)) (out : List Effect) (r : Result)
    : Type 0 where
  pub session : Session
  pub result : r ≡ done session (out ++ ((post_all s.send_que ms).1 ++ last_effect f ∷ []))
  pub repr : Repr f session
  pub queue : session.send_que ≡ (post_all s.send_que ms).0
  pub open_still : session.b_close ≡ s.b_close

abbrev pub ReadsTo : Session → Frame × List (List ℕ) → List Effect → Result → Type 0
ReadsTo s (f, ms) out r = Reads s f ms out r

last_of_open : (f : Frame) → f ≢ refused → last_effect f ≡ read_some
last_of_open refused h = absurd (h refl)
last_of_open idle h = refl
last_of_open (half hi) h = refl
last_of_open (body n got) h = refl
last_of_open undefined h = refl

-- A later part of the read, after one message.
Reads-after :
    (s s' : Session) (m : List ℕ) (p : Frame × List (List ℕ)) (out : List Effect) (r : Result)
    → s'.send_que ≡ (post s.send_que m).0
    → s'.b_close ≡ s.b_close
    → ReadsTo s' p (out ++ (post s.send_que m).1) r
    → ReadsTo s (after (m ∷ []) p) out r
Reads-after s s' m (f, ms) out r q c h = record {
  session = h.session;
  result = h.result ∙ rw q (simp append_assoc);
  repr = h.repr;
  queue = h.queue ∙ ap (λ t. (post_all t ms).0) q;
  open_still = h.open_still ∙ c;
}

-- What the loop does with a round.
abbrev pub next : ℕ → List Effect → Round → Result
next k out (stop s more) = done s (out ++ more)
next k out (again s more rest) = loop k s rest (out ++ more)
next k out throws = exception
next k out breaks = fault

pub loop-next :
    (k : ℕ) (s : Session) (b : ℕ) (rest : List ℕ) (out : List Effect)
    → loop (suc k) s (b ∷ rest) out ≡ next k out (round s (b ∷ rest))
unfolding loop
loop-next k s b rest out = by_round (round s (b ∷ rest)) refl
  where
    by_round :
        (w : Round)
        → round s (b ∷ rest) ≡ w
        → loop (suc k) s (b ∷ rest) out ≡ next k out (round s (b ∷ rest))
    by_round (stop s' more) e = rw (e, loop)
    by_round (again s' more rest') e = rw (e, loop)
    by_round throws e = rw (e, loop)
    by_round breaks e = rw (e, loop)

-- What the loop proves of shorter chunks, used at the next message.
abbrev Shorter : ℕ → Type 0
Shorter k =
    (s : Session) (b : ℕ) (rest : List ℕ) (out : List Effect)
    → length rest < k
    → Repr idle s
    → (feed_all idle (b ∷ rest)).0 ≢ undefined
    → ReadsTo s (feed_all idle (b ∷ rest)) out (loop k s (b ∷ rest) out)

-- What is left after a message: nothing, or the bytes of the next round.
resume-Reads :
    (k : ℕ) (s s' : Session) (m rest : List ℕ) (out : List Effect)
    → Shorter k
    → length rest ≤ k
    → Repr idle s'
    → s'.send_que ≡ (post s.send_que m).0
    → s'.b_close ≡ s.b_close
    → (feed_all idle rest).0 ≢ undefined
    → ReadsTo s
        (after (m ∷ []) (feed_all idle rest))
        out
        (next k out (resume s' (post s.send_que m).1 rest))
unfolding feed_all
resume-Reads k s s' m [] out ih l r q c u = record {
  session = s';
  result = simp append-nil;
  repr = r;
  queue = q;
  open_still = c;
}
resume-Reads k s s' m (b ∷ rest) out ih l r q c u =
    Reads-after s s' m (feed_all idle (b ∷ rest)) out _ q c
      (ih s' b rest (out ++ (post s.send_que m).1) l r u)

turn-Reads :
    (k : ℕ) (f : Frame) (s : Session) (chunk : List ℕ) (out : List Effect) (w : Round)
    → Shorter k
    → length chunk ≤ suc k
    → (feed_all f chunk).0 ≢ undefined
    → Turns f s chunk w
    → ReadsTo s (feed_all f chunk) out (next k out w)
turn-Reads k f s chunk out w ih l u (waits f' s' e o r same q) =
    rw (e, q)
      (record {
        session = s';
        result = rw (last_of_open f' o);
        repr = r;
        queue = same.0;
        open_still = same.1;
      })
turn-Reads k f s chunk out w ih l u (refuses s' e same q) =
    rw (e, q)
      (record { session = s'; result = refl; repr = tt; queue = same.0; open_still = same.1 })
turn-Reads k f s chunk out w ih l u (leaves e) = absurd (u (ap (λ p. p.0) e))
turn-Reads k f s chunk out w ih l u (completes m rest s' e l' r p q) =
    rw (e, q)
      (resume-Reads k s s' m rest out ih (omega arith) r p.0 p.1 (λ c. u (ap (λ p. p.0) e ∙ c)))

loop-Reads :
    (k : ℕ) (f : Frame) (s : Session) (b : ℕ) (rest : List ℕ) (out : List Effect)
    → length rest < k
    → f ≢ refused
    → Repr f s
    → (feed_all f (b ∷ rest)).0 ≢ undefined
    → ReadsTo s (feed_all f (b ∷ rest)) out (loop k s (b ∷ rest) out)
loop-Reads zero f s b rest out l o r u = absurd (omega arith)
loop-Reads (suc k) f s b rest out l o r u = rw (loop-next k s b rest out) (
    turn-Reads k f s (b ∷ rest) out (round s (b ∷ rest))
      (λ s' b' rest' out' l' r' u'. loop-Reads k idle s' b' rest' out' l' (λ c. cc) r' u') l u
      (round-Turns f s b rest o r))

-- A read of some bytes by a session that waits for them at a frame: each message that the bytes
-- complete is posted, in order: put at the end of the queue to be written back, with a write begun
-- where the queue was empty, or dropped where more than 1000 messages wait in it already. The
-- session keeps what the bytes leave of the next message and reads on, unless a length above 2048
-- ends it. The bytes lead to no length that is negative as a short. The read needs no more rounds
-- than there are bytes, and never leaves a buffer.
pub handle_read_lem :
    (f : Frame) (s : Session) (b : ℕ) (rest : List ℕ)
    → f ≢ refused
    → Repr f s
    → (feed_all f (b ∷ rest)).0 ≢ undefined
    → ReadsTo s (feed_all f (b ∷ rest)) [] (handle_read s false (b ∷ rest))
unfolding handle_read
handle_read_lem f s b rest o r u =
    loop-Reads (length (b ∷ rest) + 1) f s b rest [] (omega arith) o r u
