-- ===== src/OAuth/Refresh/SignedOut.antt =====
-- An account whose state says that it has to sign in (internal/codexoauth/manager.go).
use clan.Prelude.{
  ℕ, ◌≡◌, refl, sym, ap, ◌∙◌, subst, inl, inr, Bool, true, false, ◌&&◌, Option, none, some, [], ◌∷◌,
  ◌++◌, arith, ◌==◌, Bool-cases, length, get_elem?, Text, text_eq, text_eq_refl, lookup, insert,
  lookup-insert, lookup-erase, ==_iff,
}
use clan.Account.{OAuthCredentials, credentials_eq}
use clan.Storage.{AccountRecord}
use clan.OAuth.Refresh.{
  RefreshState, Refreshes, needs_sign_in_for, update, pointee, cancel_job, canceled_at,
  invalidate_locked, new_state, renew,
}
use clan.OAuth.Refresh.Sound.{update_self, update-other}
use clan.OAuth.Refresh.Single.{append-found, append-last}
use clan.Account.{credentials_eq_refl}

-- The account's state says that the credentials `c` need a new sign-in.
pub record SignedOut (m : Refreshes) (id : Text) (c : OAuthCredentials) : Type 0 where
  pub place : ℕ
  pub state : RefreshState
  pub registered : lookup id m.current ≡ some place
  pub found : get_elem? m.states place ≡ some state
  pub needs : state.needs_sign_in ≡ true
  pub same : state.previous.account.credentials ≡ c

-- A change of a state that keeps its need of a sign-in.
pub record IsKept (f : RefreshState → RefreshState) (s : RefreshState) : Type 0 where
  pub needs : (f s).needs_sign_in ≡ s.needs_sign_in
  pub same : (f s).previous.account.credentials ≡ s.previous.account.credentials

pub update-SignedOut :
    (m : Refreshes) (id : Text) (c : OAuthCredentials) (j : ℕ) (f : RefreshState → RefreshState)
    (o : SignedOut m id c)
    → (o.place ≡ j → IsKept f o.state)
    → SignedOut (record m { states = update m.states j f }) id c
update-SignedOut m id c j f o k = elim (Bool-cases (j == o.place)) [
  | inl e ↦
      let q : o.place ≡ j = sym ((==_iff j o.place).0 e) in
      record {
        place = o.place;
        state = f o.state;
        registered = o.registered;
        found =
            subst (λ j'. get_elem? (update m.states j' f) o.place ≡ some (f o.state)) q
              (update_self m.states o.place f o.state o.found);
        needs = (k q).needs ∙ o.needs;
        same = (k q).same ∙ o.same;
      }
  | inr n ↦ record {
    place = o.place;
    state = o.state;
    registered = o.registered;
    found = update-other m.states j o.place f n ∙ o.found;
    needs = o.needs;
    same = o.same;
  }
]

pub canceled_at-SignedOut :
    (m : Refreshes) (id : Text) (c : OAuthCredentials) (p : Option ℕ)
    → SignedOut m id c
    → SignedOut (record m { states = canceled_at m.states p }) id c
unfolding canceled_at
canceled_at-SignedOut m id c none o = record {
  place = o.place;
  state = o.state;
  registered = o.registered;
  found = o.found;
  needs = o.needs;
  same = o.same;
}
canceled_at-SignedOut m id c (some j) o =
    update-SignedOut m id c j cancel_job o
      (λ e. record { needs = ground arith; same = ground arith })

pub with_current :
    (m : Refreshes) (id : Text) (c : OAuthCredentials) (n : Refreshes) (o : SignedOut m id c)
    → n.states ≡ m.states
    → lookup id n.current ≡ some o.place
    → SignedOut n id c
with_current m id c n o e h = record {
  place = o.place;
  state = o.state;
  registered = h;
  found = ap (λ ss. get_elem? ss o.place) e ∙ o.found;
  needs = o.needs;
  same = o.same;
}

-- An account that is not the one.
pub invalidate_locked-SignedOut :
    (m : Refreshes) (id k : Text) (c : OAuthCredentials)
    → text_eq k id ≡ false
    → SignedOut m id c
    → SignedOut (invalidate_locked m k) id c
unfolding invalidate_locked
invalidate_locked-SignedOut m id k c n o =
    let p = canceled_at-SignedOut m id c (lookup k m.current) o in
    with_current _ id c _ p refl (ground (arith, n, p.registered, lookup-erase k id m.current))

pub insert-SignedOut :
    (m : Refreshes) (id k : Text) (c : OAuthCredentials) (i : ℕ)
    → text_eq k id ≡ false
    → SignedOut m id c
    → SignedOut (record m { current = insert k i m.current }) id c
insert-SignedOut m id k c i n o =
    with_current m id c _ o refl (ground (arith, n, o.registered, lookup-insert k id i m.current))

pub renew-SignedOut :
    (m : Refreshes) (id k : Text) (c : OAuthCredentials) (r : AccountRecord) (b : Bool)
    → text_eq k id ≡ false
    → SignedOut m id c
    → SignedOut (renew m k r b) id c
unfolding renew
renew-SignedOut m id k c r b n o =
    let n' = invalidate_locked m k in
    let p = invalidate_locked-SignedOut m id k c n o in
    insert-SignedOut (record n' { states = n'.states ++ new_state r b ∷ [] }) id k c
      (length n'.states) n
      (record {
        place = p.place;
        state = p.state;
        registered = p.registered;
        found = append-found n'.states (new_state r b) p.state p.place p.found;
        needs = p.needs;
        same = p.same;
      })

pub renewed-SignedOut :
    (m : Refreshes) (id : Text) (c : OAuthCredentials) (r : AccountRecord)
    → r.account.credentials ≡ c
    → SignedOut (renew m id r true) id c
unfolding renew new_state
renewed-SignedOut m id c r e =
    let n = invalidate_locked m id in
    record {
      place = length n.states;
      state = new_state r true;
      registered = ground (arith, lookup-insert id id (length n.states) n.current, text_eq_refl id);
      found = append-last n.states (new_state r true);
      needs = refl;
      same = e;
    }

pub needs_it_for :
    (m : Refreshes) (id : Text) (c : OAuthCredentials) (o : SignedOut m id c) (p : Option ℕ)
    (r : AccountRecord)
    → p ≡ some o.place
    → r.account.credentials ≡ c
    → needs_sign_in_for (pointee m p) r ≡ true
unfolding needs_sign_in_for
needs_it_for m id c o p r e h =
    ap (λ q. needs_sign_in_for q r) (ap (pointee m) e ∙ o.found)
    ∙ ap (λ b. b && credentials_eq o.state.previous.account.credentials r.account.credentials)
        o.needs
    ∙ ap (credentials_eq o.state.previous.account.credentials) (h ∙ sym o.same)
    ∙ credentials_eq_refl o.state.previous.account.credentials
