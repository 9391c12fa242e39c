-- ===== src/Cmd/Config/Account.antt =====
-- cmd/utils/flags.go: `MakeAddress`, `setEtherbase`, and the account of the developer in `SetEthConfig`.
-- The key store and the functions on texts are parameters.
use ecgeth.Base.{
  ℕ, zero, suc, Bool, ◌==◌, Option, none, some, List, [], ◌∷◌, map, String, Address, length,
  if◌then◌else◌,
}
use ecgeth.Base.Int.{ℤ, pos, negsuc}
use ecgeth.Base.Outcome.{Outcome, ok, err, panics, ◌>>=◌}
use ecgeth.Cmd.Config.{Values, is_set}

pub data AccountError : Type 0 where
  unread_passwords invalid_account no_etherbase no_new_account not_unlocked : AccountError
  index_too_high : ℕ → ℕ → AccountError

-- `Accounts`, `NewAccount` and `Unlock` of a key store in state `K`, and the readers of texts.
pub record Keys (K : Type 0) : Type 0 where
  pub accounts : K → List Address
  pub new_account : String → K → Option (Address × K)
  pub unlock : Address → String → K → Option K
  pub is_hex_address : String → Bool
  pub hex_to_address : String → Address
  pub atoi : String → Option ℤ

abbrev pub nth : ℕ → List Address → Option Address
nth i [] = none
nth zero (a ∷ as') = some a
nth (suc i) (a ∷ as') = nth i as'

-- `MakePasswordList`. `read` is the file at a path, and `trim_right` takes the carriage returns away.
unfoldable pub make_password_list :
    {F : Type 0}
    → (String → Option String)
    → (String → String)
    → Values F
    → Outcome AccountError (List String)
make_password_list read trim_right v =
    let path = v.text "password" in
    let lines : Outcome AccountError (List String) = elim (read path) [
      | none ↦ err unread_passwords
      | some text ↦ ok (map trim_right (v.context.split text "\n"))
    ] in
    if v.context.is_empty_string path then ok [] else lines

module _ {K : Type 0} (keys : Keys K) where
  abbrev pub at_index : ℕ → List Address → Outcome AccountError Address
  at_index i accs = elim (nth i accs) [
    | none ↦ err (index_too_high i (length accs))
    | some a ↦ ok a
  ]

  abbrev pub by_index : Option ℤ → List Address → Outcome AccountError Address
  by_index none accs = err invalid_account
  by_index (some (negsuc i)) accs = err invalid_account
  by_index (some (pos i)) accs = at_index i accs

  unfoldable pub make_address : K → String → Outcome AccountError Address
  make_address k account =
      if keys.is_hex_address account
      then ok (keys.hex_to_address account)
      else by_index (keys.atoi account) (keys.accounts k)

  abbrev pub etherbase_of : Option K → String → Outcome AccountError Address
  etherbase_of none text = err no_etherbase
  etherbase_of (some k) text = make_address k text

  -- The miner's etherbase.
  unfoldable pub set_etherbase_flag :
      {F : Type 0} → Values F → Option K → Address → Outcome AccountError Address
  unfolding make_address
  set_etherbase_flag v ks old =
      let text = if is_set v "miner.etherbase" then v.text "miner.etherbase" else "" in
      if v.context.is_empty_string text then ok old else etherbase_of ks text

  -- The account is that of the miner, else the first of the key store, else a new one.
  abbrev pub first_account : String → List Address → K → Outcome AccountError (Address × K)
  first_account passphrase (a ∷ as') k = ok (a, k)
  first_account passphrase [] k = elim (keys.new_account passphrase k) [
    | none ↦ err no_new_account
    | some (a, k') ↦ ok (a, k')
  ]

  abbrev pub unlocked : Address → Option K → Outcome AccountError (Address × K)
  unlocked a none = err not_unlocked
  unlocked a (some k) = ok (a, k)

  abbrev pub first_password : List String → String
  first_password [] = ""
  first_password (p ∷ ps) = p

  -- With no key store, the call of its methods panics.
  unfoldable pub developer_account :
      List String → Address → Option K → Outcome AccountError (Address × K)
  developer_account passwords etherbase none = panics
  developer_account passwords etherbase (some k) =
      let passphrase = first_password passwords in
      let chosen = first_account passphrase (keys.accounts k) k in
      (if etherbase == 0 then chosen else ok (etherbase, k)) >>= λ (a, k').
      unlocked a (keys.unlock a passphrase k')
