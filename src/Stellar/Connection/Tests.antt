-- ===== src/Stellar/Connection/Tests.antt =====
-- A connection to the test network.
use subql_stellar.Prelude.{
  String, Option, none, some, [], false, not, ◌&&◌, ◌||◌, Result, ok, throw, JsError, new_error,
  ◌≡◌, refl, ◌===◌,
}
use subql_stellar.Stellar.Api.{
  Horizon, StellarEndpointConfig, new_stellar_api, init, get_chain_id, page_limit_of, replace_colon,
}
use subql_stellar.Stellar.Connection.Create.{create_connection-eq-ok}
use subql_stellar.Stellar.Connection.{
  StellarApiConnection, new_connection, create_connection, handle_connection_error,
  ApiConnectionError,
}
use subql_stellar.Stellar.Connection.Errors.{
  speaks_of_timeout, speaks_of_disconnection, speaks_of_rate, speaks_of_size, IsMade,
  handle_connection_error_iff,
}

abbrev test_network : Horizon
test_network = record {
  transactions = λ sequence limit page. ok [];
  operations = λ sequence limit page. ok [];
  effects = λ sequence limit page. ok [];
  ledger = λ n. throw (new_error "Not Found");
  newest_ledgers = ok [];
  network_passphrase = ok "Test SDF Network ; September 2015";
}

abbrev https : String → Result String
https url = ok "https:"

abbrev connection : StellarApiConnection
connection = record {
  unsafe_api = record {
    endpoint = "https://horizon";
    soroban_client = none;
    chain_id = some "Test SDF Network ; September 2015";
    page_limit = 20;
    allow_http = false;
  };
  network_meta = record {
    chain = "Test SDF Network ; September 2015";
    spec_name = "Stellar";
    genesis_hash = "Test SDF Network ; September 2015";
  };
}

abbrev twenty : Option StellarEndpointConfig
twenty = some (record { page_limit = some 20 })

connection-created :
    create_connection https test_network "https://horizon" none twenty ≡ ok connection
unfolding create_connection new_stellar_api init new_connection get_chain_id page_limit_of
    replace_colon
connection-created = refl

create_connection-eq-ok_example :
    (passphrase : String) × (test_network.network_passphrase ≡ ok passphrase)
    × (passphrase === "" ≡ false)
    × (connection.network_meta
        ≡ record { chain = passphrase; spec_name = "Stellar"; genesis_hash = passphrase })
    × (connection.unsafe_api.soroban_client ≡ none)
    × (connection.unsafe_api.page_limit ≡ page_limit_of twenty)
create_connection-eq-ok_example =
    create_connection-eq-ok https test_network "https://horizon" none twenty connection
      connection-created

abbrev too_many : JsError
too_many = new_error "429 Too Many Requests"

rate_limit_test : handle_connection_error too_many ≡ ApiConnectionError.rate_limit_error too_many
unfolding handle_connection_error
rate_limit_test = refl

too_large_test :
    handle_connection_error (new_error "limit must not exceed 200")
    ≡ ApiConnectionError.large_response_error (new_error "limit must not exceed 200")
unfolding handle_connection_error
too_large_test = refl

handle_connection_error_iff_example :
    IsMade too_many (ApiConnectionError.timeout_error too_many) (speaks_of_timeout too_many)
    × IsMade too_many
        (ApiConnectionError.disconnection_error too_many)
        (not (speaks_of_timeout too_many) && speaks_of_disconnection too_many)
    × IsMade too_many (ApiConnectionError.rate_limit_error too_many) (
        speaks_of_rate too_many
        && not (speaks_of_timeout too_many || speaks_of_disconnection too_many))
    × IsMade too_many (ApiConnectionError.large_response_error too_many) (
        speaks_of_size too_many
        && not (
            speaks_of_timeout too_many
            || speaks_of_disconnection too_many
            || speaks_of_rate too_many))
    × IsMade too_many (ApiConnectionError.default_error too_many.name too_many.message) (
        not (
          speaks_of_timeout too_many
          || speaks_of_disconnection too_many
          || speaks_of_rate too_many
          || speaks_of_size too_many))
handle_connection_error_iff_example = handle_connection_error_iff too_many
