-- ===== src/Auth/Tests.antt =====
-- Sign-ups and log-ins over users in memory, with passwords that are stored as they are and tokens
-- that are a user's id.
use zombiies_api.Common.{
  ℕ, ◌+◌, ◌≤◌, ◌<◌, ◌≡◌, ◌↔◌, refl, true, false, some, List, [], ◌∷◌, ◌==◌, ==_refl, find, ok,
}
use zombiies_api.Common.Memory.{memory}
use zombiies_api.User.Model.{User, UserRole}
use zombiies_api.User.Model
use zombiies_api.Ether.{Transfer}
use zombiies_api.Ether.Memory.{mined}
use zombiies_api.Ether.Wallets.{EtherClient, create_new_private_key_cipher}
use zombiies_api.User.Service.{UserEnv, World, create_user, save_user}
use zombiies_api.Auth.Service.{
  AuthEnv, SignupInput, LoginInput, AuthModel, signup, login, validate, authenticate,
}
use zombiies_api.Auth.Accounts.{Call, signs_up, logs_in, after_calls, docs_of}
use zombiies_api.Auth.Accounts.Login.{login_iff, signup-login}

abbrev client : EtherClient (List Transfer)
client = record {
  chain = mined;
  create_wallet = λ key. record { address = 100 + key; private_key = key };
  create_random_wallet = λ c. (record { address = 109; private_key = 9 }, c);
  encrypt = λ text secret c. (text, c);
  decrypt = λ cipher secret. cipher;
  owner_private_key = 1;
  private_key_secret = 0;
  parse_ether_tenth = 3;
  create_wallet-random_wallet = λ c. refl;
  decrypt-encrypt = λ text secret c. refl;
  create_random_wallet_lem = λ c. refl;
  encrypt_lem = λ text secret c. refl;
}

abbrev users : UserEnv (List User) (List Transfer)
users = record {
  user_model = memory (λ u. u.id);
  id_lem = λ u. refl;
  client = client;
  is_dev = true;
  get_balance = λ a c. (ok 0, c);
  format_ether = λ n. n;
}

abbrev pub env : AuthEnv (List User) (List Transfer)
env = record {
  user_service = users;
  bcrypt_round = 10;
  hash = λ password rounds k. password;
  compare = λ password digest. password == digest;
  expires_in = 10;
  sign = λ id now. id;
  verify = λ token now. some token;
  compare-hash = λ password rounds k. ==_refl password;
  verify-sign = λ id now later le lt. refl;
}

abbrev pub nobody : World (List User) (List Transfer)
nobody = record { users = []; chain_state = []; draws = 0 }

abbrev pub alice : SignupInput
alice = record { username = 50; email = 51; password = 52 }

-- Another user with the name of the first, who is refused.
abbrev mallory : SignupInput
mallory = record { username = 50; email = 61; password = 62 }

abbrev bob : SignupInput
bob = record { username = 70; email = 71; password = 72 }

abbrev alice_credentials : LoginInput
alice_credentials = record { email = 51; password = 52 }

abbrev alice_user : User
alice_user = record {
  id = 1;
  username = 50;
  email = 51;
  password_digest = 52;
  private_key_cipher = 9;
  is_verified = false;
  role = Model.user;
}

abbrev alice_model : AuthModel
alice_model = record { user = alice_user; token = 1 }

abbrev calls : List Call
calls = signs_up mallory 4 ∷ logs_in alice_credentials 5 ∷ signs_up bob 6 ∷ []

alice_signs_up : (signup env alice 3 nobody).0 ≡ ok alice_model
unfolding signup create_user save_user create_new_private_key_cipher
alice_signs_up = refl

two_users :
    (docs_of env (after_calls env (signs_up alice 3 ∷ calls) nobody)
      ≡ alice_user
        ∷ record alice_user { id = 2; username = 70; email = 71; password_digest = 72 }
        ∷ [])
unfolding after_calls signup login validate create_user save_user create_new_private_key_cipher
two_users = refl

signup-login_example :
    let v = after_calls env calls (signup env alice 3 nobody).1 in
    ((login env alice_credentials 7 v).0 ≡ ok (record { user = alice_user; token = 1 }))
    × ((later : ℕ) → 7 ≤ later → later < 17 → (authenticate env 1 later v).0 ≡ ok alice_user)
signup-login_example = signup-login env alice 3 7 calls nobody alice_model alice_signs_up

login_iff_example :
    let w = (signup env alice 3 nobody).1 in
    ((login env alice_credentials 5 w).1 ≡ w)
    × (((login env alice_credentials 5 w).0 ≡ ok alice_model) ↔ (
        (find (λ u. u.email == 51) (docs_of env w) ≡ some alice_user)
        × ((52 == 52) ≡ true)
        × (alice_model.token ≡ env.sign 1 5)))
login_iff_example = login_iff env alice_credentials 5 (signup env alice 3 nobody).1 alice_model
