-- ===== src/Didsimport/Prefixes.antt =====
-- The dial prefixes of internal/didsimport/prefixes.go, and MatchCountry.
pub mod Laws
use didstorageapp.Prelude.{
  ℕ, Bool, true, false, Option, none, some, List, [], ◌∷◌, ◌++◌, find, length, ltb, ◌==◌, map,
  if◌then◌else◌,
}
use didstorageapp.Prelude.Text.{Bytes, codes, has_prefix, trim_prefix}

pub record CountryPrefix : Type 0 where
  pub prefix : Bytes
  pub iso : Bytes

abbrev dial : Bytes → Bytes → CountryPrefix
dial prefix iso = record { prefix = prefix; iso = iso }

-- rawPrefixes
unfoldable pub raw_prefixes : List CountryPrefix
raw_prefixes =
    dial (codes "1242") (codes "BS")
    ∷ dial (codes "1246") (codes "BB")
    ∷ dial (codes "1264") (codes "AI")
    ∷ dial (codes "1268") (codes "AG")
    ∷ dial (codes "1284") (codes "VG")
    ∷ dial (codes "1340") (codes "VI")
    ∷ dial (codes "1345") (codes "KY")
    ∷ dial (codes "1441") (codes "BM")
    ∷ dial (codes "1473") (codes "GD")
    ∷ dial (codes "1649") (codes "TC")
    ∷ dial (codes "1664") (codes "MS")
    ∷ dial (codes "1670") (codes "MP")
    ∷ dial (codes "1671") (codes "GU")
    ∷ dial (codes "1684") (codes "AS")
    ∷ dial (codes "1721") (codes "SX")
    ∷ dial (codes "1758") (codes "LC")
    ∷ dial (codes "1767") (codes "DM")
    ∷ dial (codes "1784") (codes "VC")
    ∷ dial (codes "1787") (codes "PR")
    ∷ dial (codes "1809") (codes "DO")
    ∷ dial (codes "1829") (codes "DO")
    ∷ dial (codes "1849") (codes "DO")
    ∷ dial (codes "1868") (codes "TT")
    ∷ dial (codes "1869") (codes "KN")
    ∷ dial (codes "1876") (codes "JM")
    ∷ dial (codes "1939") (codes "PR")
    ∷ dial (codes "1") (codes "US")
    ∷ dial (codes "30") (codes "GR")
    ∷ dial (codes "31") (codes "NL")
    ∷ dial (codes "32") (codes "BE")
    ∷ dial (codes "33") (codes "FR")
    ∷ dial (codes "34") (codes "ES")
    ∷ dial (codes "36") (codes "HU")
    ∷ dial (codes "39") (codes "IT")
    ∷ dial (codes "350") (codes "GI")
    ∷ dial (codes "351") (codes "PT")
    ∷ dial (codes "352") (codes "LU")
    ∷ dial (codes "353") (codes "IE")
    ∷ dial (codes "354") (codes "IS")
    ∷ dial (codes "355") (codes "AL")
    ∷ dial (codes "356") (codes "MT")
    ∷ dial (codes "357") (codes "CY")
    ∷ dial (codes "358") (codes "FI")
    ∷ dial (codes "359") (codes "BG")
    ∷ dial (codes "370") (codes "LT")
    ∷ dial (codes "371") (codes "LV")
    ∷ dial (codes "372") (codes "EE")
    ∷ dial (codes "373") (codes "MD")
    ∷ dial (codes "374") (codes "AM")
    ∷ dial (codes "375") (codes "BY")
    ∷ dial (codes "376") (codes "AD")
    ∷ dial (codes "377") (codes "MC")
    ∷ dial (codes "378") (codes "SM")
    ∷ dial (codes "379") (codes "VA")
    ∷ dial (codes "380") (codes "UA")
    ∷ dial (codes "381") (codes "RS")
    ∷ dial (codes "382") (codes "ME")
    ∷ dial (codes "383") (codes "XK")
    ∷ dial (codes "385") (codes "HR")
    ∷ dial (codes "386") (codes "SI")
    ∷ dial (codes "387") (codes "BA")
    ∷ dial (codes "389") (codes "MK")
    ∷ dial (codes "40") (codes "RO")
    ∷ dial (codes "41") (codes "CH")
    ∷ dial (codes "43") (codes "AT")
    ∷ dial (codes "44") (codes "GB")
    ∷ dial (codes "45") (codes "DK")
    ∷ dial (codes "46") (codes "SE")
    ∷ dial (codes "47") (codes "NO")
    ∷ dial (codes "48") (codes "PL")
    ∷ dial (codes "49") (codes "DE")
    ∷ dial (codes "420") (codes "CZ")
    ∷ dial (codes "421") (codes "SK")
    ∷ dial (codes "423") (codes "LI")
    ∷ dial (codes "20") (codes "EG")
    ∷ dial (codes "211") (codes "SS")
    ∷ dial (codes "212") (codes "MA")
    ∷ dial (codes "213") (codes "DZ")
    ∷ dial (codes "216") (codes "TN")
    ∷ dial (codes "218") (codes "LY")
    ∷ dial (codes "220") (codes "GM")
    ∷ dial (codes "221") (codes "SN")
    ∷ dial (codes "222") (codes "MR")
    ∷ dial (codes "223") (codes "ML")
    ∷ dial (codes "224") (codes "GN")
    ∷ dial (codes "225") (codes "CI")
    ∷ dial (codes "226") (codes "BF")
    ∷ dial (codes "227") (codes "NE")
    ∷ dial (codes "228") (codes "TG")
    ∷ dial (codes "229") (codes "BJ")
    ∷ dial (codes "230") (codes "MU")
    ∷ dial (codes "231") (codes "LR")
    ∷ dial (codes "232") (codes "SL")
    ∷ dial (codes "233") (codes "GH")
    ∷ dial (codes "234") (codes "NG")
    ∷ dial (codes "235") (codes "TD")
    ∷ dial (codes "236") (codes "CF")
    ∷ dial (codes "237") (codes "CM")
    ∷ dial (codes "238") (codes "CV")
    ∷ dial (codes "239") (codes "ST")
    ∷ dial (codes "240") (codes "GQ")
    ∷ dial (codes "241") (codes "GA")
    ∷ dial (codes "242") (codes "CG")
    ∷ dial (codes "243") (codes "CD")
    ∷ dial (codes "244") (codes "AO")
    ∷ dial (codes "245") (codes "GW")
    ∷ dial (codes "246") (codes "IO")
    ∷ dial (codes "248") (codes "SC")
    ∷ dial (codes "249") (codes "SD")
    ∷ dial (codes "250") (codes "RW")
    ∷ dial (codes "251") (codes "ET")
    ∷ dial (codes "252") (codes "SO")
    ∷ dial (codes "253") (codes "DJ")
    ∷ dial (codes "254") (codes "KE")
    ∷ dial (codes "255") (codes "TZ")
    ∷ dial (codes "256") (codes "UG")
    ∷ dial (codes "257") (codes "BI")
    ∷ dial (codes "258") (codes "MZ")
    ∷ dial (codes "260") (codes "ZM")
    ∷ dial (codes "261") (codes "MG")
    ∷ dial (codes "262") (codes "RE")
    ∷ dial (codes "263") (codes "ZW")
    ∷ dial (codes "264") (codes "NA")
    ∷ dial (codes "265") (codes "MW")
    ∷ dial (codes "266") (codes "LS")
    ∷ dial (codes "267") (codes "BW")
    ∷ dial (codes "268") (codes "SZ")
    ∷ dial (codes "269") (codes "KM")
    ∷ dial (codes "27") (codes "ZA")
    ∷ dial (codes "290") (codes "SH")
    ∷ dial (codes "291") (codes "ER")
    ∷ dial (codes "297") (codes "AW")
    ∷ dial (codes "298") (codes "FO")
    ∷ dial (codes "299") (codes "GL")
    ∷ dial (codes "51") (codes "PE")
    ∷ dial (codes "52") (codes "MX")
    ∷ dial (codes "53") (codes "CU")
    ∷ dial (codes "54") (codes "AR")
    ∷ dial (codes "55") (codes "BR")
    ∷ dial (codes "56") (codes "CL")
    ∷ dial (codes "57") (codes "CO")
    ∷ dial (codes "58") (codes "VE")
    ∷ dial (codes "500") (codes "FK")
    ∷ dial (codes "501") (codes "BZ")
    ∷ dial (codes "502") (codes "GT")
    ∷ dial (codes "503") (codes "SV")
    ∷ dial (codes "504") (codes "HN")
    ∷ dial (codes "505") (codes "NI")
    ∷ dial (codes "506") (codes "CR")
    ∷ dial (codes "507") (codes "PA")
    ∷ dial (codes "508") (codes "PM")
    ∷ dial (codes "509") (codes "HT")
    ∷ dial (codes "590") (codes "GP")
    ∷ dial (codes "591") (codes "BO")
    ∷ dial (codes "592") (codes "GY")
    ∷ dial (codes "593") (codes "EC")
    ∷ dial (codes "594") (codes "GF")
    ∷ dial (codes "595") (codes "PY")
    ∷ dial (codes "596") (codes "MQ")
    ∷ dial (codes "597") (codes "SR")
    ∷ dial (codes "598") (codes "UY")
    ∷ dial (codes "599") (codes "CW")
    ∷ dial (codes "60") (codes "MY")
    ∷ dial (codes "61") (codes "AU")
    ∷ dial (codes "62") (codes "ID")
    ∷ dial (codes "63") (codes "PH")
    ∷ dial (codes "64") (codes "NZ")
    ∷ dial (codes "65") (codes "SG")
    ∷ dial (codes "66") (codes "TH")
    ∷ dial (codes "670") (codes "TL")
    ∷ dial (codes "672") (codes "AQ")
    ∷ dial (codes "673") (codes "BN")
    ∷ dial (codes "674") (codes "NR")
    ∷ dial (codes "675") (codes "PG")
    ∷ dial (codes "676") (codes "TO")
    ∷ dial (codes "677") (codes "SB")
    ∷ dial (codes "678") (codes "VU")
    ∷ dial (codes "679") (codes "FJ")
    ∷ dial (codes "680") (codes "PW")
    ∷ dial (codes "681") (codes "WF")
    ∷ dial (codes "682") (codes "CK")
    ∷ dial (codes "683") (codes "NU")
    ∷ dial (codes "685") (codes "WS")
    ∷ dial (codes "686") (codes "KI")
    ∷ dial (codes "687") (codes "NC")
    ∷ dial (codes "688") (codes "TV")
    ∷ dial (codes "689") (codes "PF")
    ∷ dial (codes "690") (codes "TK")
    ∷ dial (codes "691") (codes "FM")
    ∷ dial (codes "692") (codes "MH")
    ∷ dial (codes "7840") (codes "AB")
    ∷ dial (codes "7940") (codes "AB")
    ∷ dial (codes "7") (codes "RU")
    ∷ dial (codes "81") (codes "JP")
    ∷ dial (codes "82") (codes "KR")
    ∷ dial (codes "84") (codes "VN")
    ∷ dial (codes "86") (codes "CN")
    ∷ dial (codes "850") (codes "KP")
    ∷ dial (codes "852") (codes "HK")
    ∷ dial (codes "853") (codes "MO")
    ∷ dial (codes "855") (codes "KH")
    ∷ dial (codes "856") (codes "LA")
    ∷ dial (codes "880") (codes "BD")
    ∷ dial (codes "886") (codes "TW")
    ∷ dial (codes "90") (codes "TR")
    ∷ dial (codes "91") (codes "IN")
    ∷ dial (codes "92") (codes "PK")
    ∷ dial (codes "93") (codes "AF")
    ∷ dial (codes "94") (codes "LK")
    ∷ dial (codes "95") (codes "MM")
    ∷ dial (codes "98") (codes "IR")
    ∷ dial (codes "960") (codes "MV")
    ∷ dial (codes "961") (codes "LB")
    ∷ dial (codes "962") (codes "JO")
    ∷ dial (codes "963") (codes "SY")
    ∷ dial (codes "964") (codes "IQ")
    ∷ dial (codes "965") (codes "KW")
    ∷ dial (codes "966") (codes "SA")
    ∷ dial (codes "967") (codes "YE")
    ∷ dial (codes "968") (codes "OM")
    ∷ dial (codes "970") (codes "PS")
    ∷ dial (codes "971") (codes "AE")
    ∷ dial (codes "972") (codes "IL")
    ∷ dial (codes "973") (codes "BH")
    ∷ dial (codes "974") (codes "QA")
    ∷ dial (codes "975") (codes "BT")
    ∷ dial (codes "976") (codes "MN")
    ∷ dial (codes "977") (codes "NP")
    ∷ dial (codes "992") (codes "TJ")
    ∷ dial (codes "993") (codes "TM")
    ∷ dial (codes "994") (codes "AZ")
    ∷ dial (codes "995") (codes "GE")
    ∷ dial (codes "996") (codes "KG")
    ∷ dial (codes "998") (codes "UZ")
    ∷ dial (codes "800") (codes "INT")
    ∷ dial (codes "808") (codes "INT")
    ∷ dial (codes "870") (codes "INT")
    ∷ dial (codes "878") (codes "INT")
    ∷ dial (codes "881") (codes "INT")
    ∷ dial (codes "882") (codes "INT")
    ∷ dial (codes "883") (codes "INT")
    ∷ dial (codes "888") (codes "INT")
    ∷ dial (codes "979") (codes "INT")
    ∷ []

-- The order of strings: byte by byte, a proper prefix first.
abbrev pub before_text : Bytes → Bytes → Bool
before_text [] [] = false
before_text [] (d ∷ t) = true
before_text (c ∷ s) [] = false
before_text (c ∷ s) (d ∷ t) = if c == d then before_text s t else ltb c d

-- The comparison of init: longer prefixes first, then by the digits.
abbrev pub is_before : CountryPrefix → CountryPrefix → Bool
is_before a b =
    if length a.prefix == length b.prefix
    then before_text a.prefix b.prefix
    else ltb (length b.prefix) (length a.prefix)

-- sort.Slice, whose result is unique on prefixes that differ.
unfoldable pub insert_prefix : CountryPrefix → List CountryPrefix → List CountryPrefix
insert_prefix p [] = p ∷ []
insert_prefix p (q ∷ qs) =
    let rest = insert_prefix p qs in if is_before p q then p ∷ q ∷ qs else q ∷ rest

unfoldable pub match_order : List CountryPrefix → List CountryPrefix
unfolding insert_prefix
match_order [] = []
match_order (p ∷ ps) = insert_prefix p (match_order ps)

unfoldable pub match_in : List CountryPrefix → Bytes → Option CountryPrefix
match_in table e164 =
    find (λ (p : CountryPrefix). has_prefix (trim_prefix e164 (codes "+")) p.prefix) table

unfoldable pub match_country : Bytes → Option Bytes
unfolding match_in match_order raw_prefixes
match_country e164 = elim (match_in (match_order raw_prefixes) e164) [
  | none ↦ none
  | some p ↦ some p.iso
]
