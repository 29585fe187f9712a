-- ===== src/ApiClient/Items.antt =====
-- clients/packages/api-client/src/session.ts: sessions, and the shape of decrypted items.
use passwd.Base.{Bool, false, List, [], Text, Bytes}

pub record Session : Type 0 where
  pub identifier : Text
  pub access_token : Text
  pub refresh_token : Text
  pub user_key : Bytes
  pub protected_private_key : Text

pub data ItemType : Type 0 where
  login note card identity : ItemType

-- `hidden` is present only where it is true.
pub record CustomField : Type 0 where
  pub label : Text
  pub value : Text
  pub hidden : Bool

pub record CardDetails : Type 0 where
  pub cardholder : Text
  pub number : Text
  pub exp_month : Text
  pub exp_year : Text
  pub cvv : Text

pub record IdentityDetails : Type 0 where
  pub full_name : Text
  pub email : Text
  pub phone : Text
  pub address : Text
  pub company : Text

pub record ItemFields : Type 0 where
  pub type : ItemType
  pub name : Text
  pub username : Text
  pub password : Text
  pub url : Text
  pub totp : Text
  pub notes : Text
  pub card : CardDetails
  pub identity : IdentityDetails
  pub fields : List CustomField
  pub favorite : Bool
  pub folder : Text

-- `{ id, ...fields }`
pub record VaultItem : Type 0 where
  pub id : Text
  pub content : ItemFields

abbrev pub blank_card : CardDetails
blank_card = record { cardholder = []; number = []; exp_month = []; exp_year = []; cvv = [] }

abbrev pub blank_identity : IdentityDetails
blank_identity = record { full_name = []; email = []; phone = []; address = []; company = [] }

abbrev pub blank_fields : ItemType → ItemFields
blank_fields type = record {
  type = type;
  name = [];
  username = [];
  password = [];
  url = [];
  totp = [];
  notes = [];
  card = blank_card;
  identity = blank_identity;
  fields = [];
  favorite = false;
  folder = [];
}
