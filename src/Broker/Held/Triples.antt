-- ===== src/Broker/Held/Triples.antt =====
-- How the steps that commit and restore share end.
use agent_workspace_guard.Base.{
  ◌≡◌, refl, ap, ◌∙◌, Bool, true, false, not, Text, ◌==◌, eq_sound, list_eq, nat_eq, Result, ok,
  err, Error, refuse,
}
use agent_workspace_guard.Paths.{FilePath}
use agent_workspace_guard.FileSystem.{Action, Files, World, when, lexists}
use agent_workspace_guard.FileSystem.Triples.{
  Ends, Triple, Stable, Triple->>=, Triple-lift, Triple-remember, Triple-call, Triple-when,
}
use agent_workspace_guard.Broker.Lock.{on_error, handled, raise_after, remove_state_tree}
use agent_workspace_guard.Broker.Held.{Held, save, sign_with, expect}

pub Triple-save :
    {pre post fail : World Held → Type 0} (change : Held → Held)
    → Stable pre
    → Stable post
    → ((w : World Held) → pre w → post (record w { memory = change w.memory }))
    → ((w : World Held) → pre w → fail w)
    → ((w : World Held) → post w → fail w)
    → Triple pre (save change) (λ u. post) fail
unfolding save
Triple-save {pre = pre} {post = post} change before after step bad bad' =
    Triple->>= (λ u. pre) _ _ (Triple-call (λ files. files) before bad)
      (λ u.
        Triple->>= (λ u. post) _ _ (Triple-remember change step)
          (λ u. Triple-call (λ files. files) after bad'))

pub Triple-on_error :
    {M A : Type 0} {pre fail : World M → Type 0} {post : A → World M → Type 0}
    (mid : World M → Type 0) (body : Action M A) (handler : Action M (Unit {0}))
    → Triple pre body post mid
    → Triple mid handler (λ u. fail) fail
    → Triple pre (on_error body handler) post fail
unfolding Ends
Triple-on_error {M} {fail = fail} {post = post} mid body handler inner outer = record {
  ends = λ w p. follow (body w) (inner.ends w p);
}
  where
    reraise :
        (e : Error) (r : Result (Unit {0}) × World M)
        → Ends (λ u. fail) fail r
        → Ends post fail (raise_after e r)
    reraise e (ok u, v) h = h
    reraise e (err e', v) h = h

    follow : (r : Result _ × World M) → Ends post mid r → Ends post fail (handled r handler)
    follow (ok a, v) h = h
    follow (err e, v) h = reraise e (handler v) (outer.ends v h)

pub Triple-remove_state_tree :
    {pre fail : World Held → Type 0} (resolve : FilePath → FilePath) (state_root path : FilePath)
    → Stable pre
    → ((w : World Held) → pre w → fail w)
    → Triple pre
        (λ w. when (lexists path w.files) (remove_state_tree resolve state_root path) w)
        (λ u. pre)
        fail
unfolding remove_state_tree
Triple-remove_state_tree {pre = pre} {fail = fail} resolve state_root path stable bad = record {
  ends = λ w p.
      (Triple-when {fail = fail} (lexists path w.files) (remove_state_tree resolve state_root path)
          (Triple->>= (λ u. pre) _ _ (Triple-lift _ (λ u v e q. q) bad)
            (λ u. Triple-call _ stable bad))).ends
        w p;
}

pub Triple-sign_with :
    {pre fail : World Held → Type 0} (signed : World Held → Result Text)
    → ((w : World Held) (signature : Text)
        → pre w
        → pre (record w { memory = record w.memory { signature = signature } }))
    → ((w : World Held) → pre w → fail w)
    → Triple pre (λ w. sign_with (signed w) w) (λ u. pre) fail
unfolding Ends
Triple-sign_with {pre = pre} {fail = fail} signed good bad = record {
  ends = λ w p. follow w p (signed w);
}
  where
    follow : (w : World Held) → pre w → (r : Result Text) → Ends (λ u. pre) fail (sign_with r w)
    follow w p (ok signature) = good w signature p
    follow w p (err e) = bad w p

module _ (digest_of : FilePath → Files → Result Text) where
  pub Triple-expect :
      {pre post fail : World Held → Type 0} (root : FilePath) (digest : Text) (error : Error)
      → ((w : World Held) → digest_of root w.files ≡ ok digest → pre w → post w)
      → ((w : World Held) → pre w → fail w)
      → Triple pre (expect digest_of root digest error) (λ u. post) fail
  unfolding Ends expect
  Triple-expect {pre = pre} {post = post} {fail = fail} root digest error good bad =
      Triple->>= (λ found w. pre w × (digest_of root w.files ≡ ok found)) _ _
        (record { ends = λ w p. first w p (digest_of root w.files) refl })
        (λ found.
          Triple-lift _ (λ u w e p. good w (p.1 ∙ ap ok (same found e)) p.0) (λ w p. bad w p.0))
    where
      first :
          (w : World Held)
          → pre w
          → (r : Result Text) → digest_of root w.files ≡ r
          → Ends (λ found v. pre v × (digest_of root v.files ≡ ok found)) fail (r, w)
      first w p (ok found) e = (p, e)
      first w p (err raised) e = bad w p

      refused : (test : Bool) → refuse (not test) error ≡ ok tt → test ≡ true
      refused true e = refl
      refused false e = cc

      same : (found : Text) → refuse (not (found == digest)) error ≡ ok tt → found ≡ digest
      same found e = eq_sound found digest (refused (found == digest) e)
