-- ===== src/Validation/Contract/Sealing.antt =====
-- The seal of a started contract.
use artifex_dev.Prelude.{String, ◌≡◌, refl, str_eq, true, some, ok, arith, eq_refl}
use artifex_dev.Validation.Contract.{
  Terms, AcceptanceContract, draft, execution_started, acceptance_contract, start,
  assert_untampered, fingerprint,
}

module _ (hash_payload : Terms → String) where
  -- A draft that passes the checks of the constructor starts: the result has the same terms, is
  -- sealed with their fingerprint, passes the checks and is untampered.
  pub start_seals :
      (c : AcceptanceContract)
      → acceptance_contract hash_payload c ≡ ok c
      → c.state ≡ draft
      → (s : AcceptanceContract) × (start hash_payload c ≡ ok s)
        × (s.terms ≡ c.terms)
        × (s.state ≡ execution_started)
        × (s.sealed_hash ≡ some (hash_payload c.terms))
        × (acceptance_contract hash_payload s ≡ ok s)
        × (assert_untampered hash_payload s ≡ ok tt)
  unfolding start acceptance_contract assert_untampered
  start_seals c valid is_new = (
    record c { state = execution_started; sealed_hash = some (fingerprint hash_payload c) },
    ground (arith, same),
    refl,
    refl,
    refl,
    ground (arith, same),
    ground (arith, same),
  )
    where
      same : str_eq (hash_payload c.terms) (hash_payload c.terms) ≡ true
      same = eq_refl (hash_payload c.terms)
