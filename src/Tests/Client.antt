-- ===== src/Tests/Client.antt =====
-- A client with the ratio 1:2 and a generator that counts.
use memtier_skewsyn.Prelude.{ℕ, ◌+◌, ◌≡◌, refl, true, false, some, arith, codes}
use memtier_skewsyn.ObjGen.{no_object, key_random}
use memtier_skewsyn.Protocol.Keylist.{new_keylist}
use memtier_skewsyn.Client.{ClientConfig, ObjectSource, Client, Command, create_request}
use memtier_skewsyn.Client.Ratio.{is_set, is_get, IsSure, IsPlain, requested, create_request-ratio}

abbrev pub counter : ObjectSource ℕ
counter = record {
  get_object = λ i g. some (no_object, g + 1);
  get_key = λ i g. some (codes "k", 1, g + 1);
  wait_args = λ g. some (1, 2, g + 1);
}

counter-IsSure : IsSure counter
counter-IsSure = record {
  object = λ i g. (no_object, g + 1, refl);
  key = λ i g. (codes "k", 0, g + 1, refl);
}

abbrev pub options : ClientConfig
options = record {
  ratio = record { a = 1; b = 2 };
  wait_ratio = record { a = 0; b = 0 };
  multi_key_get = 0;
  requests = 10;
  reconnect_interval = 0;
  set_iter = key_random;
  get_iter = key_random;
}

options-IsPlain : IsPlain options
options-IsPlain = record { no_wait = refl; single = refl; some_request = omega arith }

abbrev pub client : Client ℕ
client = record {
  m_obj_gen = 0;
  m_keylist = new_keylist 1;
  m_reqs_processed = 0;
  m_reqs_generated = 0;
  m_set_ratio_count = 0;
  m_get_ratio_count = 0;
  m_tot_set_ops = 0;
  m_tot_wait_ops = 0;
}

create_request-ratio_example :
    (h : Client ℕ) × (cmd : Command) × (h' : Client ℕ) × (requested options counter options-IsPlain
        counter-IsSure 5 client
      ≡ some h)
    × (create_request options counter h ≡ some (cmd, h'))
    × (is_set cmd ≡ false)
    × (is_get cmd ≡ true)
create_request-ratio_example =
    create_request-ratio options counter options-IsPlain counter-IsSure 5 client refl refl
