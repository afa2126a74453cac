-- ===== src/Geo/Tables.antt =====
-- pkg/geo/identify.go: the countries, their codes and the other spellings.
use museumscraper.Prelude.{String, List, [], ◌∷◌}

abbrev pub countries : List String
countries =
    "Afghanistan" ∷ "Albania" ∷ "Algeria" ∷ "Andorra" ∷ "Angola" ∷ "Antigua and Barbuda"
    ∷ "Argentina" ∷ "Armenia" ∷ "Australia" ∷ "Austria" ∷ "Azerbaijan" ∷ "Bahamas" ∷ "Bahrain"
    ∷ "Bangladesh" ∷ "Barbados" ∷ "Belarus" ∷ "Belgium" ∷ "Belize" ∷ "Benin" ∷ "Bhutan" ∷ "Bolivia"
    ∷ "Bosnia and Herzegovina" ∷ "Botswana" ∷ "Brazil" ∷ "Brunei" ∷ "Bulgaria" ∷ "Burkina Faso"
    ∷ "Burundi" ∷ "Cabo Verde" ∷ "Cambodia" ∷ "Cameroon" ∷ "Canada" ∷ "Cape Verde"
    ∷ "Central African Republic" ∷ "Chad" ∷ "Chile" ∷ "China" ∷ "Colombia" ∷ "Comoros"
    ∷ "Costa Rica" ∷ "Croatia" ∷ "Cuba" ∷ "Cyprus" ∷ "Czech Republic" ∷ "Czechia" ∷ "Côte d'Ivoire"
    ∷ "Democratic Republic of the Congo" ∷ "Denmark" ∷ "Djibouti" ∷ "Dominica"
    ∷ "Dominican Republic" ∷ "East Timor" ∷ "Ecuador" ∷ "Egypt" ∷ "El Salvador"
    ∷ "Equatorial Guinea" ∷ "Eritrea" ∷ "Estonia" ∷ "Eswatini" ∷ "Ethiopia" ∷ "Fiji" ∷ "Finland"
    ∷ "France" ∷ "Gabon" ∷ "Gambia" ∷ "Georgia" ∷ "Germany" ∷ "Ghana" ∷ "Greece" ∷ "Grenada"
    ∷ "Guatemala" ∷ "Guinea" ∷ "Guinea-Bissau" ∷ "Guyana" ∷ "Haiti" ∷ "Honduras" ∷ "Hungary"
    ∷ "Iceland" ∷ "India" ∷ "Indonesia" ∷ "Iran" ∷ "Iraq" ∷ "Ireland" ∷ "Israel" ∷ "Italy"
    ∷ "Ivory Coast" ∷ "Jamaica" ∷ "Japan" ∷ "Jordan" ∷ "Kazakhstan" ∷ "Kenya" ∷ "Kiribati"
    ∷ "Kuwait" ∷ "Kyrgyzstan" ∷ "Laos" ∷ "Latvia" ∷ "Lebanon" ∷ "Lesotho" ∷ "Liberia" ∷ "Libya"
    ∷ "Liechtenstein" ∷ "Lithuania" ∷ "Luxembourg" ∷ "Madagascar" ∷ "Malawi" ∷ "Malaysia"
    ∷ "Maldives" ∷ "Mali" ∷ "Malta" ∷ "Marshall Islands" ∷ "Mauritania" ∷ "Mauritius" ∷ "Mexico"
    ∷ "Micronesia" ∷ "Moldova" ∷ "Monaco" ∷ "Mongolia" ∷ "Montenegro" ∷ "Morocco" ∷ "Mozambique"
    ∷ "Myanmar" ∷ "Namibia" ∷ "Nauru" ∷ "Nepal" ∷ "Netherlands" ∷ "New Zealand" ∷ "Nicaragua"
    ∷ "Niger" ∷ "Nigeria" ∷ "North Korea" ∷ "North Macedonia" ∷ "Norway" ∷ "Oman" ∷ "Pakistan"
    ∷ "Palau" ∷ "Palestine" ∷ "Panama" ∷ "Papua New Guinea" ∷ "Paraguay" ∷ "Peru" ∷ "Philippines"
    ∷ "Poland" ∷ "Portugal" ∷ "Qatar" ∷ "Republic of the Congo" ∷ "Romania" ∷ "Russia" ∷ "Rwanda"
    ∷ "Saint Kitts and Nevis" ∷ "Saint Lucia" ∷ "Saint Vincent and the Grenadines" ∷ "Samoa"
    ∷ "San Marino" ∷ "Sao Tome and Principe" ∷ "Saudi Arabia" ∷ "Senegal" ∷ "Serbia" ∷ "Seychelles"
    ∷ "Sierra Leone" ∷ "Singapore" ∷ "Slovakia" ∷ "Slovenia" ∷ "Solomon Islands" ∷ "Somalia"
    ∷ "South Africa" ∷ "South Korea" ∷ "South Sudan" ∷ "Spain" ∷ "Sri Lanka" ∷ "Sudan" ∷ "Suriname"
    ∷ "Sweden" ∷ "Switzerland" ∷ "Syria" ∷ "Taiwan" ∷ "Tajikistan" ∷ "Tanzania" ∷ "Thailand"
    ∷ "Togo" ∷ "Tonga" ∷ "Trinidad and Tobago" ∷ "Tunisia" ∷ "Turkey" ∷ "Turkmenistan" ∷ "Tuvalu"
    ∷ "the Federated States of Micronesia" ∷ "Uganda" ∷ "Ukraine" ∷ "United Arab Emirates"
    ∷ "United Kingdom" ∷ "United States" ∷ "Uruguay" ∷ "Uzbekistan" ∷ "Vanuatu" ∷ "Vatican City"
    ∷ "Venezuela" ∷ "Vietnam" ∷ "Yemen" ∷ "Zambia" ∷ "Zimbabwe" ∷ []

abbrev pub country_iso : List (String × String)
country_iso =
    ("Afghanistan", "AF")
    ∷ ("Albania", "AL")
    ∷ ("Algeria", "DZ")
    ∷ ("Andorra", "AD")
    ∷ ("Angola", "AO")
    ∷ ("Antigua and Barbuda", "AG")
    ∷ ("Argentina", "AR")
    ∷ ("Armenia", "AM")
    ∷ ("Australia", "AU")
    ∷ ("Austria", "AT")
    ∷ ("Azerbaijan", "AZ")
    ∷ ("Bahamas", "BS")
    ∷ ("Bahrain", "BH")
    ∷ ("Bangladesh", "BD")
    ∷ ("Barbados", "BB")
    ∷ ("Belarus", "BY")
    ∷ ("Belgium", "BE")
    ∷ ("Belize", "BZ")
    ∷ ("Benin", "BJ")
    ∷ ("Bhutan", "BT")
    ∷ ("Bolivia", "BO")
    ∷ ("Bosnia and Herzegovina", "BA")
    ∷ ("Botswana", "BW")
    ∷ ("Brazil", "BR")
    ∷ ("Brunei", "BN")
    ∷ ("Bulgaria", "BG")
    ∷ ("Burkina Faso", "BF")
    ∷ ("Burundi", "BI")
    ∷ ("Cabo Verde", "CV")
    ∷ ("Cambodia", "KH")
    ∷ ("Cameroon", "CM")
    ∷ ("Canada", "CA")
    ∷ ("Cape Verde", "CV")
    ∷ ("Central African Republic", "CF")
    ∷ ("Chad", "TD")
    ∷ ("Chile", "CL")
    ∷ ("China", "CN")
    ∷ ("Colombia", "CO")
    ∷ ("Comoros", "KM")
    ∷ ("Costa Rica", "CR")
    ∷ ("Croatia", "HR")
    ∷ ("Cuba", "CU")
    ∷ ("Cyprus", "CY")
    ∷ ("Czech Republic", "CZ")
    ∷ ("Czechia", "CZ")
    ∷ ("Côte d'Ivoire", "CI")
    ∷ ("Democratic Republic of the Congo", "CD")
    ∷ ("Denmark", "DK")
    ∷ ("Djibouti", "DJ")
    ∷ ("Dominica", "DM")
    ∷ ("Dominican Republic", "DO")
    ∷ ("East Timor", "TL")
    ∷ ("Ecuador", "EC")
    ∷ ("Egypt", "EG")
    ∷ ("El Salvador", "SV")
    ∷ ("Equatorial Guinea", "GQ")
    ∷ ("Eritrea", "ER")
    ∷ ("Estonia", "EE")
    ∷ ("Eswatini", "SZ")
    ∷ ("Ethiopia", "ET")
    ∷ ("Fiji", "FJ")
    ∷ ("Finland", "FI")
    ∷ ("France", "FR")
    ∷ ("Gabon", "GA")
    ∷ ("Gambia", "GM")
    ∷ ("Georgia", "GE")
    ∷ ("Germany", "DE")
    ∷ ("Ghana", "GH")
    ∷ ("Greece", "GR")
    ∷ ("Grenada", "GD")
    ∷ ("Guatemala", "GT")
    ∷ ("Guinea", "GN")
    ∷ ("Guinea-Bissau", "GW")
    ∷ ("Guyana", "GY")
    ∷ ("Haiti", "HT")
    ∷ ("Honduras", "HN")
    ∷ ("Hungary", "HU")
    ∷ ("Iceland", "IS")
    ∷ ("India", "IN")
    ∷ ("Indonesia", "ID")
    ∷ ("Iran", "IR")
    ∷ ("Iraq", "IQ")
    ∷ ("Ireland", "IE")
    ∷ ("Israel", "IL")
    ∷ ("Italy", "IT")
    ∷ ("Ivory Coast", "CI")
    ∷ ("Jamaica", "JM")
    ∷ ("Japan", "JP")
    ∷ ("Jordan", "JO")
    ∷ ("Kazakhstan", "KZ")
    ∷ ("Kenya", "KE")
    ∷ ("Kiribati", "KI")
    ∷ ("Kuwait", "KW")
    ∷ ("Kyrgyzstan", "KG")
    ∷ ("Laos", "LA")
    ∷ ("Latvia", "LV")
    ∷ ("Lebanon", "LB")
    ∷ ("Lesotho", "LS")
    ∷ ("Liberia", "LR")
    ∷ ("Libya", "LY")
    ∷ ("Liechtenstein", "LI")
    ∷ ("Lithuania", "LT")
    ∷ ("Luxembourg", "LU")
    ∷ ("Madagascar", "MG")
    ∷ ("Malawi", "MW")
    ∷ ("Malaysia", "MY")
    ∷ ("Maldives", "MV")
    ∷ ("Mali", "ML")
    ∷ ("Malta", "MT")
    ∷ ("Marshall Islands", "MH")
    ∷ ("Mauritania", "MR")
    ∷ ("Mauritius", "MU")
    ∷ ("Mexico", "MX")
    ∷ ("Micronesia", "FM")
    ∷ ("Moldova", "MD")
    ∷ ("Monaco", "MC")
    ∷ ("Mongolia", "MN")
    ∷ ("Montenegro", "ME")
    ∷ ("Morocco", "MA")
    ∷ ("Mozambique", "MZ")
    ∷ ("Myanmar", "MM")
    ∷ ("Namibia", "NA")
    ∷ ("Nauru", "NR")
    ∷ ("Nepal", "NP")
    ∷ ("Netherlands", "NL")
    ∷ ("New Zealand", "NZ")
    ∷ ("Nicaragua", "NI")
    ∷ ("Niger", "NE")
    ∷ ("Nigeria", "NG")
    ∷ ("North Korea", "KP")
    ∷ ("North Macedonia", "MK")
    ∷ ("Norway", "NO")
    ∷ ("Oman", "OM")
    ∷ ("Pakistan", "PK")
    ∷ ("Palau", "PW")
    ∷ ("Palestine", "PS")
    ∷ ("Panama", "PA")
    ∷ ("Papua New Guinea", "PG")
    ∷ ("Paraguay", "PY")
    ∷ ("Peru", "PE")
    ∷ ("Philippines", "PH")
    ∷ ("Poland", "PL")
    ∷ ("Portugal", "PT")
    ∷ ("Qatar", "QA")
    ∷ ("Republic of the Congo", "CG")
    ∷ ("Romania", "RO")
    ∷ ("Russia", "RU")
    ∷ ("Rwanda", "RW")
    ∷ ("Saint Kitts and Nevis", "KN")
    ∷ ("Saint Lucia", "LC")
    ∷ ("Saint Vincent and the Grenadines", "VC")
    ∷ ("Samoa", "WS")
    ∷ ("San Marino", "SM")
    ∷ ("Sao Tome and Principe", "ST")
    ∷ ("Saudi Arabia", "SA")
    ∷ ("Senegal", "SN")
    ∷ ("Serbia", "RS")
    ∷ ("Seychelles", "SC")
    ∷ ("Sierra Leone", "SL")
    ∷ ("Singapore", "SG")
    ∷ ("Slovakia", "SK")
    ∷ ("Slovenia", "SI")
    ∷ ("Solomon Islands", "SB")
    ∷ ("Somalia", "SO")
    ∷ ("South Africa", "ZA")
    ∷ ("South Korea", "KR")
    ∷ ("South Sudan", "SS")
    ∷ ("Spain", "ES")
    ∷ ("Sri Lanka", "LK")
    ∷ ("Sudan", "SD")
    ∷ ("Suriname", "SR")
    ∷ ("Sweden", "SE")
    ∷ ("Switzerland", "CH")
    ∷ ("Syria", "SY")
    ∷ ("Taiwan", "TW")
    ∷ ("Tajikistan", "TJ")
    ∷ ("Tanzania", "TZ")
    ∷ ("Thailand", "TH")
    ∷ ("Togo", "TG")
    ∷ ("Tonga", "TO")
    ∷ ("Trinidad and Tobago", "TT")
    ∷ ("Tunisia", "TN")
    ∷ ("Turkey", "TR")
    ∷ ("Turkmenistan", "TM")
    ∷ ("Tuvalu", "TV")
    ∷ ("Uganda", "UG")
    ∷ ("Ukraine", "UA")
    ∷ ("United Arab Emirates", "AE")
    ∷ ("United Kingdom", "GB")
    ∷ ("United States", "US")
    ∷ ("Uruguay", "UY")
    ∷ ("Uzbekistan", "UZ")
    ∷ ("Vanuatu", "VU")
    ∷ ("Vatican City", "VA")
    ∷ ("Venezuela", "VE")
    ∷ ("Vietnam", "VN")
    ∷ ("Yemen", "YE")
    ∷ ("Zambia", "ZM")
    ∷ ("Zimbabwe", "ZW")
    ∷ ("the Federated States of Micronesia", "FM")
    ∷ []

abbrev pub country_aliases : List (String × String)
country_aliases =
    ("czechia", "Czech Republic")
    ∷ ("cabo verde", "Cape Verde")
    ∷ ("côte d'ivoire", "Ivory Coast")
    ∷ ("cote d'ivoire", "Ivory Coast")
    ∷ ("the federated states of micronesia", "Micronesia")
    ∷ ("east timor", "East Timor")
    ∷ ("timor-leste", "East Timor")
    ∷ ("holland", "Netherlands")
    ∷ ("burma", "Myanmar")
    ∷ ("swaziland", "Eswatini")
    ∷ ("macedonia", "North Macedonia")
    ∷ ("great britain", "United Kingdom")
    ∷ ("britain", "United Kingdom")
    ∷ ("usa", "United States")
    ∷ ("united states of america", "United States")
    ∷ ("uae", "United Arab Emirates")
    ∷ ("south korea", "South Korea")
    ∷ ("republic of korea", "South Korea")
    ∷ ("north korea", "North Korea")
    ∷ ("vatican", "Vatican City")
    ∷ ("holy see", "Vatican City")
    ∷ []
