-- ===== src/Errors/MapPg/Codes.antt =====
-- What the translation of errors keeps, and which class each SQLSTATE of the contract gets.
use instructed.Prelude.{
  String, ◌==◌, ◌≡◌, refl, sym, subst, false, inl, inr, Option, none, some, arith, eq_iff,
  Bool-cases,
}
use instructed.Errors.{
  PgError, Thrown, is_stream_not_found, is_snapshot_not_found, is_wrong_expected_version,
  is_subscription_not_found, is_subscription_lease_lost, is_work_item_lease_lost,
}
use instructed.Errors.MapPg.{
  MapPgErrorContext, pg_error_like, map_code, map_coded, map_like, map_pg_error,
}

abbrev pub code_in : Option PgError → Option String
code_in none = none
code_in (some e) = e.code

-- The SQLSTATE that a caught value carries, if any.
abbrev pub code_of : Thrown → Option String
code_of err = code_in (pg_error_like err)

-- The translation of a coded error gives an error of the same SQLSTATE.
code_of-map_code :
    (code : String) (e : PgError) (ctx : MapPgErrorContext) (err : Thrown)
    → code_of err ≡ some code
    → code_of (map_code code e ctx err) ≡ some code
unfolding map_code
code_of-map_code code e ctx err h = ground arith

code_of-map_coded :
    (o : Option String) (e : PgError) (ctx : MapPgErrorContext) (err : Thrown)
    → code_of err ≡ o
    → code_of (map_coded o e ctx err) ≡ o
code_of-map_coded none e ctx err h = h
code_of-map_coded (some code) e ctx err h = elim (Bool-cases (code == "")) [
  | inl empty ↦ rw empty h
  | inr coded ↦ rw coded (code_of-map_code code e ctx err h)
]

code_of-map_like :
    (o : Option PgError) (ctx : MapPgErrorContext) (err : Thrown)
    → code_of err ≡ code_in o
    → code_of (map_like o ctx err) ≡ code_in o
code_of-map_like none ctx err h = h
code_of-map_like (some e) ctx err h = code_of-map_coded e.code e ctx err h

-- Translating an error keeps its SQLSTATE, whether it is wrapped or passes through.
pub code_of-map_pg_error :
    (err : Thrown) (ctx : MapPgErrorContext) → code_of (map_pg_error err ctx) ≡ code_of err
unfolding map_pg_error
code_of-map_pg_error err ctx = code_of-map_like (pg_error_like err) ctx err refl

-- A case split on one text among the literals of a `switch`.
by_text :
    (P : String → Type 0) (literal code : String)
    → P literal
    → ((code == literal) ≡ false → P code)
    → P code
by_text P literal code here next = elim (Bool-cases (code == literal)) [
  | inl e ↦ subst P (sym ((eq_iff code literal).0 e)) here
  | inr n ↦ next n
]

-- Each class that the workers and the runner test for is that of one SQLSTATE.
abbrev pub Classifies : (Thrown → Thrown) → (String → Thrown) → String → Type 0
Classifies translate raised code =
    (is_wrong_expected_version (translate (raised code)) ≡ (code == "IS001"))
    × (is_stream_not_found (translate (raised code)) ≡ (code == "IS003"))
    × (is_snapshot_not_found (translate (raised code)) ≡ (code == "IS010"))
    × (is_subscription_not_found (translate (raised code)) ≡ (code == "IS020"))
    × (is_subscription_lease_lost (translate (raised code)) ≡ (code == "IS022"))
    × (is_work_item_lease_lost (translate (raised code)) ≡ (code == "IS030"))

-- A driver error of a given SQLSTATE.
abbrev pub raised_with : PgError → String → Thrown
raised_with e code = Thrown.pg (record e { code = some code })

-- A driver error is given one of the classes that the runner and the workers test for exactly when
-- its SQLSTATE is the one of that class.
pub map_pg_error-Classifies :
    (e : PgError) (ctx : MapPgErrorContext) (code : String)
    → Classifies (λ err. map_pg_error err ctx) (raised_with e) code
unfolding map_pg_error map_code
map_pg_error-Classifies e ctx code =
    by_text (Classifies (λ err. map_pg_error err ctx) (raised_with e)) "" code
      (refl, refl, refl, refl, refl, refl)
      λ a.
        by_text (Classifies (λ err. map_pg_error err ctx) (raised_with e)) "IS001" code
          (refl, refl, refl, refl, refl, refl)
          λ b.
            by_text (Classifies (λ err. map_pg_error err ctx) (raised_with e)) "IS002" code
              (refl, refl, refl, refl, refl, refl)
              λ c.
                by_text (Classifies (λ err. map_pg_error err ctx) (raised_with e)) "IS003" code
                  (refl, refl, refl, refl, refl, refl)
                  λ d.
                    by_text (Classifies (λ err. map_pg_error err ctx) (raised_with e)) "IS004" code
                      (refl, refl, refl, refl, refl, refl)
                      λ f.
                        by_text (Classifies (λ err. map_pg_error err ctx) (raised_with e)) "IS005"
                          code (refl, refl, refl, refl, refl, refl)
                          λ g.
                            by_text (Classifies (λ err. map_pg_error err ctx) (raised_with e))
                              "IS006" code (refl, refl, refl, refl, refl, refl)
                              λ h.
                                by_text (Classifies (λ err. map_pg_error err ctx) (raised_with e))
                                  "IS010" code (refl, refl, refl, refl, refl, refl)
                                  λ i.
                                    by_text
                                      (Classifies (λ err. map_pg_error err ctx) (raised_with e))
                                      "IS020" code (refl, refl, refl, refl, refl, refl)
                                      λ j.
                                        by_text
                                          (Classifies (λ err. map_pg_error err ctx) (raised_with e))
                                          "IS021" code (refl, refl, refl, refl, refl, refl)
                                          λ k.
                                            by_text
                                              (Classifies (λ err. map_pg_error err ctx)
                                                (raised_with e))
                                              "IS022" code (refl, refl, refl, refl, refl, refl)
                                              λ l.
                                                by_text
                                                  (Classifies (λ err. map_pg_error err ctx)
                                                    (raised_with e))
                                                  "IS030" code (refl, refl, refl, refl, refl, refl)
                                                  λ m.
                                                    by_text
                                                      (Classifies (λ err. map_pg_error err ctx)
                                                        (raised_with e))
                                                      "22023" code
                                                      (refl, refl, refl, refl, refl, refl)
                                                      λ n.
                                                        simp (a, b, c, d, f, g, h, i, j, k, l, m, n)
                                                          (refl, refl, refl, refl, refl, refl)
