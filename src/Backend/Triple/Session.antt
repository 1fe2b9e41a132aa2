-- ===== src/Backend/Triple/Session.antt =====
-- The rules for the steps between `msql_conn` and the END that closes the connection.
use hydra_fs.Prelude.{◌≡◌, sym, subst, false, Option, none, some, inl, inr, Bool-cases}
use hydra_fs.Prelude.Int.{ℤ, negsuc}
use hydra_fs.Backend.{set_names_utf8, System, Out, go, stop, crash, Exec}
use hydra_fs.Backend.Mysql.{msql_conn, with_database}
use hydra_fs.Backend.Contract.{State, Contract, rolled_back}
use hydra_fs.Backend.Triple.{Leaves, Post-same, Ends, Sat}
use hydra_fs.Backend.Triple.Statements.{query_still, set_names_still, msql_conn_still}

module _ {W S : Type 0} (sys : System W) (view : W → S) where
  -- Connecting and the names keep `P`, and closing keeps what the steps lead to.
  pub session_ends :
      {A : Type 0} (P : S → Type 0) (Q : A → S → Type 0) (E : Option ℤ → S → Type 0)
      (steps : Exec W A)
      → ((w : W) → P (view w) → P (view (msql_conn sys w).1))
      → ((w : W) → P (view w) → P (view (sys.mysql_query set_names_utf8 w).1))
      → ((a : A) (w : W) → Q a (view w) → Q a (view (sys.mysql_close w)))
      → ((r : Option ℤ) (w : W) → E r (view w) → E r (view (sys.mysql_close w)))
      → ((w : W) → (msql_conn sys w).0 ≡ false → (s : S) → P s → E (some (negsuc 0)) s)
      → Ends view P steps Q E
      → (w : W) → P (view w)
      → Leaves view Q E (with_database sys steps w).0 (with_database sys steps w).1
  unfolding with_database
  session_ends {A} P Q E steps connecting naming closing closing_out refused leads w p =
      elim (Bool-cases (msql_conn sys w).0) [
        | inl e ↦
            rw (e, with_database)
              (closed (steps w2).0 (steps w2).1 (leads.at w2 (naming _ (connecting w p))))
        | inr e ↦ rw (e, with_database) (refused w e _ (connecting w p))
      ]
    where
      w2 : W
      w2 = (sys.mysql_query set_names_utf8 (msql_conn sys w).1).1

      closed : (r : Out A) (w : W) → Leaves view Q E r w → Leaves view Q E r (sys.mysql_close w)
      closed (go a) w h = closing a w h
      closed (stop r) w h = closing_out (some r) w h
      closed crash w h = closing_out none w h

module _ {W : Type 0} (sys : System W) (view : W → State) (behaves : Contract sys view) where
  -- A session whose steps lead from `P` to `Q`, or to `E` of the return value, which a rollback
  -- keeps; without a connection -1 is returned.
  pub with_database_ends :
      (P Q : State → Type 0) (E : Option ℤ → State → Type 0) (steps : Exec W (Unit {0}))
      → ((w : W) → (msql_conn sys w).0 ≡ false → (s : State) → P s → E (some (negsuc 0)) s)
      → ((s : State) → Q s → Q (rolled_back s))
      → ((r : Option ℤ) (s : State) → E r s → E r (rolled_back s))
      → Ends view P steps (λ _. Q) E
      → (w : W) → P (view w)
      → Leaves view (λ _. Q) E (with_database sys steps w).0 (with_database sys steps w).1
  with_database_ends P Q E steps refused back back_out =
      session_ends sys view P (λ _. Q) E steps
        (λ w p. subst P (sym (msql_conn_still sys view behaves w)) p)
        (λ w p.
          subst P
            (sym (query_still sys view behaves set_names_utf8 (set_names_still sys view behaves) w))
            p)
        (λ _ w q. subst Q (sym (behaves.close w)) (back _ q))
        (λ r w e. subst (E r) (sym (behaves.close w)) (back_out r _ e)) refused

  -- The same where the return value does not matter.
  pub with_database_sat :
      (P Q : State → Type 0) (steps : Exec W (Unit {0}))
      → ((s : State) → P s → Q s)
      → ((s : State) → Q s → Q (rolled_back s))
      → Sat view P steps (λ _. Q) Q
      → (w : W) → P (view w)
      → Q (view (with_database sys steps w).1)
  with_database_sat P Q steps weaker back keeps w p =
      Post-same view Q _ _
        (with_database_ends P Q (λ _. Q) steps (λ w e. weaker) back (λ _. back) keeps w p)

  -- A session whose steps keep a property that a rollback keeps too.
  pub with_database_keeps :
      (P : State → Type 0) (steps : Exec W (Unit {0}))
      → ((s : State) → P s → P (rolled_back s))
      → Sat view P steps (λ _. P) P
      → (w : W) → P (view w)
      → P (view (with_database sys steps w).1)
  with_database_keeps P steps back keeps = with_database_sat P P steps (λ s h. h) back keeps
