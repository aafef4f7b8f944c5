-- ===== src/Libdg/Reader/Fields.antt =====
-- What a term may hold while the file is read: nothing, or a value that its check accepts.
use madai.Base.{ℤ, Bool, true, false, Option, none, some, [], ◌≡◌, refl, Bytes}
use madai.Types.{ConfigData}
use madai.Libdg.Checks.{ConfErr}
use madai.Libdg.Entry.{
  IntField, cd_listenport, cd_miltertimeout, cd_copyport, cd_copymailtimeout, TextField,
  cd_syslogfacility, cd_listenip, cd_copyserverip, cd_helodomain, CfType, number, text, function,
  other, set_int, set_text, get_int, get_text,
}
use madai.Libdg.Reader.{run_check}

abbrev same_int : IntField → IntField → Bool
same_int cd_listenport cd_listenport = true
same_int cd_miltertimeout cd_miltertimeout = true
same_int cd_copyport cd_copyport = true
same_int cd_copymailtimeout cd_copymailtimeout = true
same_int _ _ = false

abbrev same_text : TextField → TextField → Bool
same_text cd_syslogfacility cd_syslogfacility = true
same_text cd_listenip cd_listenip = true
same_text cd_copyserverip cd_copyserverip = true
same_text cd_helodomain cd_helodomain = true
same_text _ _ = false

-- Two terms are stored in one field.
abbrev pub clash : CfType → CfType → Bool
clash (number _ _ f) (number _ _ g) = same_int f g
clash (text _ f) (text _ g) = same_text f g
clash _ _ = false

-- The value that a text field holds was accepted by the check, or was empty and not stored.
abbrev pub TextOk : Option (Bytes → Option ConfErr) → Option Bytes → Type 0
TextOk check none = run_check check [] ≡ none
TextOk check (some v) = run_check check v ≡ none

abbrev pub TermOk : CfType → ConfigData → Type 0
TermOk (number _ check f) cfg = run_check check (get_int f cfg) ≡ none
TermOk (text check f) cfg = TextOk check (get_text f cfg)
TermOk (function _) cfg = Unit {0}
TermOk (other _) cfg = Unit {0}

abbrev pub Unset : CfType → ConfigData → Type 0
Unset (text _ f) cfg = get_text f cfg ≡ none
Unset _ cfg = Unit {0}

abbrev pub TermState : CfType → Bool → ConfigData → Type 0
TermState t true cfg = TermOk t cfg
TermState t false cfg = Unset t cfg

pub get_int-set_int : (f : IntField) (v : ℤ) (cfg : ConfigData) → get_int f (set_int f v cfg) ≡ v
get_int-set_int cd_listenport v cfg = refl
get_int-set_int cd_miltertimeout v cfg = refl
get_int-set_int cd_copyport v cfg = refl
get_int-set_int cd_copymailtimeout v cfg = refl

pub get_text-set_text :
    (f : TextField) (v : Bytes) (cfg : ConfigData) → get_text f (set_text f v cfg) ≡ some v
get_text-set_text cd_syslogfacility v cfg = refl
get_text-set_text cd_listenip v cfg = refl
get_text-set_text cd_copyserverip v cfg = refl
get_text-set_text cd_helodomain v cfg = refl

pub get_int-set_int_ne :
    (f g : IntField) (v : ℤ) (cfg : ConfigData)
    → same_int f g ≡ false
    → get_int g (set_int f v cfg) ≡ get_int g cfg
get_int-set_int_ne cd_listenport cd_listenport v cfg h = cc
get_int-set_int_ne cd_miltertimeout cd_miltertimeout v cfg h = cc
get_int-set_int_ne cd_copyport cd_copyport v cfg h = cc
get_int-set_int_ne cd_copymailtimeout cd_copymailtimeout v cfg h = cc
get_int-set_int_ne _ _ v cfg h = refl

pub get_text-set_text_ne :
    (f g : TextField) (v : Bytes) (cfg : ConfigData)
    → same_text f g ≡ false
    → get_text g (set_text f v cfg) ≡ get_text g cfg
get_text-set_text_ne cd_syslogfacility cd_syslogfacility v cfg h = cc
get_text-set_text_ne cd_listenip cd_listenip v cfg h = cc
get_text-set_text_ne cd_copyserverip cd_copyserverip v cfg h = cc
get_text-set_text_ne cd_helodomain cd_helodomain v cfg h = cc
get_text-set_text_ne _ _ v cfg h = refl

pub get_text-set_int :
    (f : IntField) (g : TextField) (v : ℤ) (cfg : ConfigData)
    → get_text g (set_int f v cfg) ≡ get_text g cfg
get_text-set_int cd_listenport cd_syslogfacility v cfg = refl
get_text-set_int cd_miltertimeout cd_syslogfacility v cfg = refl
get_text-set_int cd_copyport cd_syslogfacility v cfg = refl
get_text-set_int cd_copymailtimeout cd_syslogfacility v cfg = refl
get_text-set_int _ _ v cfg = refl

pub get_int-set_text :
    (f : TextField) (g : IntField) (v : Bytes) (cfg : ConfigData)
    → get_int g (set_text f v cfg) ≡ get_int g cfg
get_int-set_text cd_syslogfacility cd_listenport v cfg = refl
get_int-set_text cd_listenip cd_listenport v cfg = refl
get_int-set_text cd_copyserverip cd_listenport v cfg = refl
get_int-set_text cd_helodomain cd_listenport v cfg = refl
get_int-set_text _ _ v cfg = refl

-- Storing one term leaves the terms of other fields as they are.
pub TermState-set_int :
    (plus : Bool) (check : Option (ℤ → Option ConfErr)) (f : IntField) (v : ℤ) (cfg : ConfigData)
    (t : CfType) (b : Bool)
    → clash (number plus check f) t ≡ false
    → TermState t b cfg
    → TermState t b (set_int f v cfg)
TermState-set_int plus check f v cfg (number p c g) true h ok =
    rw (get_int-set_int_ne f g v cfg h) ok
TermState-set_int plus check f v cfg (number p c g) false h ok = tt
TermState-set_int plus check f v cfg (text c g) true h ok = rw (get_text-set_int f g v cfg) ok
TermState-set_int plus check f v cfg (text c g) false h ok = rw (get_text-set_int f g v cfg) ok
TermState-set_int plus check f v cfg (function c) true h ok = tt
TermState-set_int plus check f v cfg (function c) false h ok = tt
TermState-set_int plus check f v cfg (other n) true h ok = tt
TermState-set_int plus check f v cfg (other n) false h ok = tt

pub TermState-set_text :
    (check : Option (Bytes → Option ConfErr)) (f : TextField) (v : Bytes) (cfg : ConfigData)
    (t : CfType) (b : Bool)
    → clash (text check f) t ≡ false
    → TermState t b cfg
    → TermState t b (set_text f v cfg)
TermState-set_text check f v cfg (number p c g) true h ok = rw (get_int-set_text f g v cfg) ok
TermState-set_text check f v cfg (number p c g) false h ok = tt
TermState-set_text check f v cfg (text c g) true h ok = rw (get_text-set_text_ne f g v cfg h) ok
TermState-set_text check f v cfg (text c g) false h ok = rw (get_text-set_text_ne f g v cfg h) ok
TermState-set_text check f v cfg (function c) true h ok = tt
TermState-set_text check f v cfg (function c) false h ok = tt
TermState-set_text check f v cfg (other n) true h ok = tt
TermState-set_text check f v cfg (other n) false h ok = tt
