-- ===== src/Newsletter/Once.antt =====
-- How often the workers of core/newsletter.py try an email, whatever comes in between.
use gestalt_workframe.Prelude.{
  ℕ, String, true, false, none, some, refl, List, [], ◌≡◌, ◌≢◌, sym, ap, ◌∙◌, inl, inr, arith,
  Bool-cases, Option-cases, text_key, IsIn, ◌==◌,
}
use mathlib.Core.Path.{subst}
use gestalt_workframe.Prelude.Assoc.{get}
use gestalt_workframe.Discovery.Rows.{Texts}
use gestalt_workframe.Newsletter.Rows.{Press, is_sending, has_gone_out}
use gestalt_workframe.Newsletter.Dispatch.{
  claim, snapshot, assign_ship_number, Mailing, send_emails, Post, finish_issue,
}
use gestalt_workframe.Newsletter.Calls.{
  idle, numbered, mailed, Newsroom, set_task, issue_of, IsDistinct, Step, calls, creates, claims,
  Task, copied, failing, abandoned, unpublishing, copies, numbers, fails, reverts, collides,
  reverts_again, looks, hides, IsCalm, AllCalm, mails_out, finishes, crashes, Reach, here, next,
}
use gestalt_workframe.Newsletter.Keeps.{is_busy, is_closed, run_call-Keeps, write_unpublished-Keeps}
use gestalt_workframe.Newsletter.Spares.{
  create-Spares, claim-Keeps, finish-Spares, is_closed-finish, issues-send_emails, Spares,
  snapshot-Keeps, assign-Keeps, revert_dispatch-Keeps, revert_dispatch-Spares,
  revert_collided-Spares,
}
use gestalt_workframe.Newsletter.Mails.{mails-send_emails, once-send_emails}
use gestalt_workframe.Newsletter.Orderly.{
  is_before, IsOrderly, set_task-cases, free-IsOrderly, left_alone, spared-IsOrderly,
  claim-IsOrderly, retask-IsOrderly, press-IsOrderly, Keeps-IsOrderly,
}

busy-closed : (id : String) (p : Press) → is_busy id p ≡ true → is_closed id p ≡ true
unfolding is_busy is_closed is_sending has_gone_out
busy-closed id p h = ground (arith, Option-cases (get id p.issues))

busy-issues :
    (id : String) (p q : Press) → q.issues ≡ p.issues → is_busy id p ≡ true → is_busy id q ≡ true
unfolding is_busy
busy-issues id p q e h = rw e h

closed-issues :
    (id : String) (p q : Press)
    → q.issues ≡ p.issues
    → is_closed id p ≡ true
    → is_closed id q ≡ true
unfolding is_closed
closed-issues id p q e h = rw e h

-- a worker's issue is not one that emails went out of
not_mailed :
    (w : ℕ) (id : String) (n : Newsroom)
    → IsOrderly n
    → issue_of (n.tasks w) ≡ some id
    → is_before (n.tasks w) ≡ true
    → (m : String × String) → IsIn m n.press.mails
    → id ≢ m.0
not_mailed w id n o h b m i e = o.unsent w m b i (h ∙ ap some e)

mails_out-IsOrderly :
    (w now : ℕ) (mail : String → Mailing) (ss : List String) (id : String) (n : Newsroom)
    → n.tasks w ≡ numbered id
    → IsDistinct ss
    → IsOrderly n
    → IsOrderly (record {
      press = send_emails mail now id ss n.press;
      tasks = set_task w (mailed id) n.tasks;
    })
unfolding issue_of is_before
mails_out-IsOrderly w now mail ss id n t d o =
    let has = ap issue_of t in
    let before = ap is_before t in
    let same = issues-send_emails mail now id ss n.press in
    let r = retask-IsOrderly w (mailed id) n (λ j h. has ∙ h) (λ h. before) o in
    record {
      busy = λ v j h. busy-issues j n.press _ same (r.busy v j h);
      alone = r.alone;
      closed = λ m i.
          closed-issues m.0 n.press _ same (elim (mails-send_emails mail now id ss n.press m i) [
            | inl e ↦
                subst (λ j. is_closed j n.press ≡ true) e (busy-closed id n.press (o.busy w id has))
            | inr j ↦ o.closed m j
          ]);
      unsent = λ v m b i k. elim (set_task-cases w v (mailed id) n.tasks) [
        | inl (e, f) ↦ ground (arith, ap is_before (sym f) ∙ b)
        | inr (e, f) ↦ elim (mails-send_emails mail now id ss n.press m i) [
          | inl g ↦ e (o.alone w v id has (ap issue_of (sym f) ∙ k ∙ ap some (sym g)))
          | inr j ↦ o.unsent v m (ap is_before (sym f) ∙ b) j (ap issue_of (sym f) ∙ k)
        ]
      ];
      once =
          once-send_emails mail now id ss n.press d
            (λ m i e. elim (not_mailed w id n o has before m i e) [ ]) o.once;
    }

finishes-IsOrderly :
    (w now : ℕ) (post : Post) (id : String) (n : Newsroom)
    → n.tasks w ≡ mailed id
    → IsOrderly n
    → IsOrderly
        (record { press = (finish_issue now post id n.press).0; tasks = set_task w idle n.tasks })
unfolding issue_of is_before
finishes-IsOrderly w now post id n t o =
    let s = finish-Spares now post id n.press in
    let o' = free-IsOrderly w idle n refl refl o in
    press-IsOrderly _ (record n { tasks = set_task w idle n.tasks }) s.mails
      (λ v j h.
        s.busy j (λ e. left_alone w idle n refl refl o id (ap issue_of t) v (h ∙ ap some (sym e)))
          (o'.busy v j h))
      (λ m i. elim (Bool-cases (id == m.0)) [
        | inl e ↦
            let f = (text_key.agree_iff id m.0).0 e in
            subst (λ j. is_closed j (finish_issue now post id n.press).0 ≡ true) f
              (is_closed-finish now post id n.press
                (subst (λ j. is_closed j n.press ≡ true) (sym f) (o.closed m i)))
        | inr e ↦
            s.closed m.0 (λ f. ground (arith, e, (text_key.agree_iff id m.0).1 f)) (o.closed m i)
      ])
      o'

-- a worker that gives its issue back before any email of it
given_back :
    (w : ℕ) (t : Task) (id : String) (q : Press) (n : Newsroom)
    → issue_of t ≡ none
    → is_before t ≡ false
    → Spares id n.press q
    → issue_of (n.tasks w) ≡ some id
    → is_before (n.tasks w) ≡ true
    → IsOrderly n
    → IsOrderly (record { press = q; tasks = set_task w t n.tasks })
given_back w t id q n free done spares has before o =
    spared-IsOrderly id q (record n { tasks = set_task w t n.tasks }) spares
      (left_alone w t n free done o id has) (not_mailed w id n o has before)
      (free-IsOrderly w t n free done o)

Step-IsOrderly :
    (tx : Texts) {n n' : Newsroom} (s : Step tx n n') → IsCalm s → IsOrderly n → IsOrderly n'
unfolding issue_of is_before IsCalm
Step-IsOrderly tx (calls c n) calm o = Keeps-IsOrderly _ n (run_call-Keeps tx c n.press) o
Step-IsOrderly tx (creates now id name subject target n fresh) calm o =
    spared-IsOrderly id _ n (create-Spares tx now id name subject target n.press) fresh.unheld
      (λ m i e. fresh.unmailed m i (sym e)) o
Step-IsOrderly tx (claims w now id n t h) calm o =
    let (k, b, c, f) = claim-Keeps now id n.press h in
    claim-IsOrderly w id (record n { press = (claim now id n.press).0 }) b
      (λ v e. ground (arith, o.busy v id e, f))
      (λ m i e. ground (
        arith,
        c,
        subst (λ j. is_closed j n.press ≡ true) (sym e) (o.closed m (subst (IsIn m) k.mails i)),
      ))
      (Keeps-IsOrderly _ n k o)
Step-IsOrderly tx (copies w id n t) calm o =
    retask-IsOrderly w (copied id) (record n { press = snapshot id n.press })
      (λ j e. ap issue_of t ∙ e) (λ e. ap is_before t)
      (Keeps-IsOrderly _ n (snapshot-Keeps id n.press) o)
Step-IsOrderly tx (numbers w now id n t h) calm o =
    retask-IsOrderly w (numbered id) (record n { press = (assign_ship_number now id n.press).0 })
      (λ j e. ap issue_of t ∙ e) (λ e. ap is_before t)
      (Keeps-IsOrderly _ n (assign-Keeps now id n.press) o)
Step-IsOrderly tx (fails w id n t) calm o =
    retask-IsOrderly w (failing id) n (λ j e. ap issue_of t ∙ e) (λ e. ap is_before t) o
Step-IsOrderly tx (reverts w now id n t) calm o =
    given_back w idle id _ n refl refl (revert_dispatch-Spares now id n.press) (ap issue_of t)
      (ap is_before t) o
Step-IsOrderly tx (collides w now id n t) calm o =
    given_back w (abandoned id) id _ n refl refl (revert_collided-Spares now id n.press)
      (ap issue_of t) (ap is_before t) o
Step-IsOrderly tx (reverts_again w now id n t) calm o =
    Keeps-IsOrderly _ (record n { tasks = set_task w idle n.tasks })
      (revert_dispatch-Keeps now id n.press calm) (free-IsOrderly w idle n refl refl o)
Step-IsOrderly tx (looks w id i n t h) calm o = free-IsOrderly w (unpublishing id i) n refl refl o
Step-IsOrderly tx (hides w now id i n t) calm o =
    Keeps-IsOrderly _ (record n { tasks = set_task w idle n.tasks })
      (write_unpublished-Keeps now id i n.press calm) (free-IsOrderly w idle n refl refl o)
Step-IsOrderly tx (mails_out w now mail ss id n t d) calm o =
    mails_out-IsOrderly w now mail ss id n t d o
Step-IsOrderly tx (finishes w now post id n t) calm o = finishes-IsOrderly w now post id n t o
Step-IsOrderly tx (crashes w n) calm o = free-IsOrderly w idle n refl refl o

Reach-IsOrderly :
    (tx : Texts) {n n' : Newsroom} → IsOrderly n → (r : Reach tx n n') → AllCalm r → IsOrderly n'
unfolding AllCalm
Reach-IsOrderly tx o here calm = o
Reach-IsOrderly tx o (next r s) calm = Step-IsOrderly tx s calm.1 (Reach-IsOrderly tx o r calm.0)

idle_room-IsOrderly :
    (n : Newsroom) → ((w : ℕ) → n.tasks w ≡ idle) → n.press.mails ≡ [] → IsOrderly n
unfolding issue_of is_before
idle_room-IsOrderly n t m = record {
  busy = λ w id h. ground (arith, ap issue_of (sym (t w)) ∙ h);
  alone = λ w v id h k. ground (arith, ap issue_of (sym (t w)) ∙ h);
  closed = λ k i. elim (subst (IsIn k) m i) [ ];
  unsent = λ w k b i h. ground (arith, ap is_before (sym (t w)) ∙ b);
  once = subst IsDistinct (sym m) tt;
}

-- In whatever order the calls of operators and the parts of workers come, and whatever fails or crashes,
-- no email of an issue is tried twice for one subscriber, where it begins with idle workers and no
-- emails, new issues get fresh ids, no list of subscribers names one twice, no worker that reverted an
-- issue after collisions finds it in sending when it reads it again, and no issue's status changes
-- between the read and the write of an `unpublish_issue`.
pub mailed_once :
    (tx : Texts) (n n' : Newsroom)
    → ((w : ℕ) → n.tasks w ≡ idle)
    → n.press.mails ≡ []
    → (r : Reach tx n n') → AllCalm r
    → IsDistinct n'.press.mails
mailed_once tx n n' t m r calm = (Reach-IsOrderly tx (idle_room-IsOrderly n t m) r calm).once
