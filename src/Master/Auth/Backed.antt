-- ===== src/Master/Auth/Backed.antt =====
-- The sessions of internal/master/web/handler_auth.go against the table of users: what each change of the
-- two keeps.
use craft_stack.Prelude.{
  ℕ, ◌+◌, ◌≡◌, ◌≢◌, refl, sym, ◌∙◌, List, [], ◌∷◌, ◌++◌, Text, Bool, true, false, not, some, ◌==◌,
  keep, arith, Bool-cases, inl, inr,
}
use craft_stack.Prelude.Dict.{Dict, remove, AllValues, AllValues-put, AllValues-remove}
use craft_stack.Master.Users.{
  User, UserTable, find_id, find_username, update_rows, create_user, update_user, reject_user,
}
use craft_stack.Master.Users.Keyed.{
  IsKeyed, Distinct-update, below-update, find_id-update, find_id-update_self, find_id-delete,
  find_id-create, Distinct-keep, below-keep, Distinct-create, below-create, find_id-find_username,
}
use craft_stack.Master.Auth.{
  Session, AuthState, create_session, delete_user_sessions, api_approve_user, revoke,
  api_reject_user,
}

-- The session names an approved user of the table, with the user's name and role.
pub record IsBacked (rows : List User) (s : Session) : Type 0 where
  pub user : User
  pub found : find_id s.user_id rows ≡ some user
  pub approved : user.approved ≡ true
  pub same_role : user.role ≡ s.role
  pub same_name : user.username ≡ s.username

pub record IsSound (st : AuthState) : Type 0 where
  pub keyed : IsKeyed st.users
  pub backed : AllValues (IsBacked st.users.rows) st.sessions

-- The sessions of other users do not see a change to one user.
module _ (rows rows' : List User) (k : ℕ)
    (others : (j : ℕ) → j ≢ k → find_id j rows' ≡ find_id j rows) where
  IsBacked-other : (s : Session) → (s.user_id == k) ≡ false → IsBacked rows s → IsBacked rows' s
  IsBacked-other s e b = record {
    user = b.user;
    found = others s.user_id (λ p. ground arith) ∙ b.found;
    approved = b.approved;
    same_role = b.same_role;
    same_name = b.same_name;
  }

  revoked-IsBacked :
      (ss : Dict Session)
      → AllValues (IsBacked rows) ss
      → AllValues (IsBacked rows') (delete_user_sessions k ss)
  unfolding delete_user_sessions
  revoked-IsBacked [] h = tt
  revoked-IsBacked ((t, s) ∷ ss) (b, h) = elim (Bool-cases (s.user_id == k)) [
    | inl e ↦ rw e (unfold delete_user_sessions in revoked-IsBacked ss h)
    | inr e ↦ rw e (IsBacked-other s e b, unfold delete_user_sessions in revoked-IsBacked ss h)
  ]

module _ (f : User → User) (k : ℕ) (keeps : (u : User) → (f u).id ≡ u.id) where
  update-IsKeyed :
      (t : UserTable) → IsKeyed t → IsKeyed (record t { rows = update_rows f k t.rows })
  update-IsKeyed t i = record {
    distinct = Distinct-update f k keeps t.rows i.distinct;
    below = below-update f k keeps t.next_id t.rows i.below;
  }

  pub revoke_update-IsSound :
      (ok : Bool) (st : AuthState)
      → IsSound st
      → IsSound (revoke (update_user ok f k st.users) k st).1
  revoke_update-IsSound true st i = record {
    keyed = update-IsKeyed st.users i.keyed;
    backed =
        revoked-IsBacked st.users.rows (update_rows f k st.users.rows) k
          (λ j n. find_id-update f k keeps j st.users.rows n) st.sessions i.backed;
  }
  revoke_update-IsSound false st i = i

revoke_delete-IsSound :
    (ok : Bool) (k : ℕ) (st : AuthState)
    → IsSound st
    → IsSound (revoke (reject_user ok k st.users) k st).1
revoke_delete-IsSound false k st i = i
revoke_delete-IsSound true k st i = record {
  keyed = record {
    distinct = Distinct-keep (λ u. not (u.id == k)) st.users.rows i.keyed.distinct;
    below = below-keep st.users.next_id (λ u. not (u.id == k)) st.users.rows i.keyed.below;
  };
  backed =
      revoked-IsBacked st.users.rows (keep (λ u. not (u.id == k)) st.users.rows) k
        (λ j n. find_id-delete k j st.users.rows n) st.sessions i.backed;
}

AllValues-mono :
    (rows rows' : List User)
    → ((s : Session) → IsBacked rows s → IsBacked rows' s)
    → (ss : Dict Session) → AllValues (IsBacked rows) ss
    → AllValues (IsBacked rows') ss
AllValues-mono rows rows' f [] h = tt
AllValues-mono rows rows' f ((t, s) ∷ ss) (b, h) = (f s b, AllValues-mono rows rows' f ss h)

abbrev approving : User → User
approving u = record u { approved = true }

IsBacked-approve :
    (k : ℕ) (rows : List User) (s : Session)
    → IsBacked rows s
    → IsBacked (update_rows approving k rows) s
IsBacked-approve k rows s b = elim (Bool-cases (s.user_id == k)) [
  | inl e ↦
      let at_k : s.user_id ≡ k = ground arith in
      record {
        user = approving b.user;
        found = rw at_k (find_id-update_self approving k (λ u. refl) rows (rw at_k at b.found));
        approved = refl;
        same_role = b.same_role;
        same_name = b.same_name;
      }
  | inr e ↦
      IsBacked-other rows (update_rows approving k rows) k
        (λ j n. find_id-update approving k (λ u. refl) j rows n) s e b
]

pub approve-IsSound :
    (ok : Bool) (k : ℕ) (st : AuthState) → IsSound st → IsSound (api_approve_user ok k st).1
unfolding api_approve_user
approve-IsSound false k st i = i
approve-IsSound true k st i = record {
  keyed = update-IsKeyed approving k (λ u. refl) st.users i.keyed;
  backed =
      AllValues-mono st.users.rows (update_rows approving k st.users.rows)
        (IsBacked-approve k st.users.rows) st.sessions i.backed;
}

pub create-IsSound :
    (ok : Bool) (name hash role : Text) (st : AuthState) (users : UserTable)
    → create_user ok name hash role false st.users ≡ some users
    → IsSound st
    → IsSound (record st { users = users })
unfolding create_user
create-IsSound ok name hash role st users e i = rw (sym same_users) (record {
  keyed = record {
    distinct = Distinct-create st.users.rows new_row i.keyed.distinct i.keyed.below;
    below = below-create st.users.rows new_row i.keyed.below;
  };
  backed = AllValues-mono st.users.rows (st.users.rows ++ new_row ∷ []) kept st.sessions i.backed;
})
  where
    new_row : User
    new_row = record {
      id = st.users.next_id;
      username = name;
      password_hash = hash;
      role = role;
      approved = false;
    }

    same_users :
        record { rows = st.users.rows ++ new_row ∷ []; next_id = st.users.next_id + 1 } ≡ users
    same_users = ground arith

    kept : (s : Session) → IsBacked st.users.rows s → IsBacked (st.users.rows ++ new_row ∷ []) s
    kept s b = record {
      user = b.user;
      found = find_id-create s.user_id st.users.rows new_row b.found;
      approved = b.approved;
      same_role = b.same_role;
      same_name = b.same_name;
    }

pub create_session-IsSound :
    (now : ℕ) (token name : Text) (st : AuthState) (u : User)
    → find_username name st.users.rows ≡ some u
    → u.approved ≡ true
    → IsSound st
    → IsSound (record st { sessions = create_session now token u st.sessions })
unfolding create_session
create_session-IsSound now token name st u e a i = record {
  keyed = i.keyed;
  backed = AllValues-put (IsBacked st.users.rows) st.sessions token _ i.backed (record {
    user = u;
    found = find_id-find_username name st.users.rows i.keyed.distinct e;
    approved = a;
    same_role = refl;
    same_name = refl;
  });
}

pub remove-IsSound :
    (token : Text) (st : AuthState)
    → IsSound st
    → IsSound (record st { sessions = remove st.sessions token })
remove-IsSound token st i = record {
  keyed = i.keyed;
  backed = AllValues-remove (IsBacked st.users.rows) st.sessions token i.backed;
}

pub reject-IsSound :
    (ok : Bool) (id : ℕ) (st : AuthState) → IsSound st → IsSound (api_reject_user ok id st).1
unfolding api_reject_user
reject-IsSound ok id st i = revoke_delete-IsSound ok id st i
