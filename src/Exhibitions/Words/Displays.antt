-- ===== src/Exhibitions/Words/Displays.antt =====
-- pkg/exhibitions/permanent.go: the words for displays with no closing date, and for the pages on
-- which a museum describes itself.
use museumscraper.Prelude.{String, List, [], ◌∷◌}

abbrev pub permanent_words : List String
permanent_words =
    "permanent" ∷ "dauerausstellung" ∷ "ständige ausstellung" ∷ "standige ausstellung"
    ∷ "basutställning" ∷ "basutstallning" ∷ "fast utställning" ∷ "fasta utställningar"
    ∷ "fast udstilling" ∷ "faste udstillinger" ∷ "fast utstilling" ∷ "faste utstillinger"
    ∷ "perusnäyttely" ∷ "pysyvä näyttely" ∷ "vaste collectie" ∷ "vaste opstelling" ∷ "wystawa stała"
    ∷ "stała wystawa" ∷ "stálá expozice" ∷ "stálá výstava" ∷ "állandó kiállítás"
    ∷ "постоянная экспозиция" ∷ "постоянная выставка" ∷ []

abbrev pub closed_words : List String
closed_words =
    "permanently closed" ∷ "permanent closure" ∷ "permanently shut" ∷ "permanent stängt"
    ∷ "dauerhaft geschlossen" ∷ "définitivement fermé" ∷ []

abbrev pub permanent_path_hints : List String
permanent_path_hints =
    "permanent" ∷ "dauerausstellung" ∷ "basutstallning" ∷ "basutställning" ∷ "fasta-utstallningar"
    ∷ "fast-utstallning" ∷ "faste-udstillinger" ∷ "vaste-collectie" ∷ "vaste-opstelling"
    ∷ "wystawa-stala" ∷ "stala-wystawa" ∷ []

abbrev pub info_link_words : List String
info_link_words =
    "museum information" ∷ "museiinformation" ∷ "museumsinformation" ∷ "about the museum"
    ∷ "about us" ∷ "about" ∷ "visit" ∷ "plan your visit" ∷ "what we offer" ∷ "what to see"
    ∷ "see and do" ∷ "things to see" ∷ "om museet" ∷ "om oss" ∷ "besök" ∷ "besok" ∷ "besøk"
    ∷ "vieraile" ∷ "besuch" ∷ "besuchen" ∷ "über uns" ∷ "uber uns" ∷ "informationen" ∷ "visiter"
    ∷ "visite" ∷ "à propos" ∷ "a propos" ∷ "informations" ∷ "visita" ∷ "visitar" ∷ "informazioni"
    ∷ "información" ∷ "informacion" ∷ "bezoek" ∷ "over het museum" ∷ "over ons" ∷ []

abbrev pub info_path_hints : List String
info_path_hints =
    "museiinformation" ∷ "museum-information" ∷ "about" ∷ "visit" ∷ "besok" ∷ "besök" ∷ "besuch"
    ∷ "om-museet" ∷ "om-oss" ∷ "ueber-uns" ∷ "uber-uns" ∷ "visite" ∷ "informations" ∷ "informazioni"
    ∷ "informacion" ∷ "bezoek" ∷ []

abbrev pub info_paths : List String
info_paths =
    "/visit" ∷ "/en/visit" ∷ "/plan-your-visit" ∷ "/about" ∷ "/en/about" ∷ "/museiinformation"
    ∷ "/om-museet" ∷ "/besok" ∷ "/besuch" ∷ "/visite" ∷ "/bezoek" ∷ "/visita" ∷ "/informazioni" ∷ []

abbrev pub display_words : List String
display_words =
    "exhibit" ∷ "exhibition" ∷ "on display" ∷ "on show" ∷ "on view" ∷ "gallery" ∷ "galleries"
    ∷ "collection" ∷ "collections" ∷ "displayed" ∷ "utställning" ∷ "utstallning" ∷ "visas" ∷ "visar"
    ∷ "samling" ∷ "samlingar" ∷ "udstilling" ∷ "utstilling" ∷ "näyttely" ∷ "nayttely"
    ∷ "ausstellung" ∷ "sammlung" ∷ "gezeigt" ∷ "zeigt" ∷ "exponate" ∷ "exposition" ∷ "collections"
    ∷ "exposé" ∷ "expose" ∷ "montre" ∷ "présente" ∷ "esposizione" ∷ "mostra" ∷ "collezione"
    ∷ "esposti" ∷ "exposición" ∷ "exposicion" ∷ "colección" ∷ "coleccion" ∷ "muestra"
    ∷ "tentoonstelling" ∷ "collectie" ∷ "getoond" ∷ "te zien" ∷ "wystawa" ∷ "ekspozycja"
    ∷ "экспозиция" ∷ "выставка" ∷ []
