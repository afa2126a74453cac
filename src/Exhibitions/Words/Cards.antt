-- ===== src/Exhibitions/Words/Cards.antt =====
-- pkg/exhibitions/extract.go: the words on the cards of a listing, and in the paths they lead to.
use museumscraper.Prelude.{String, List, [], ◌∷◌}

abbrev pub skip_link_words : List String
skip_link_words =
    "cookie" ∷ "privacy" ∷ "newsletter" ∷ "subscribe" ∷ "donate" ∷ "membership" ∷ "shop" ∷ "tickets"
    ∷ "book now" ∷ "buy" ∷ "gift" ∷ "search" ∷ "menu" ∷ "accessibility" ∷ "terms" ∷ "contact"
    ∷ "press" ∷ "jobs" ∷ "careers" ∷ "view all" ∷ "see all" ∷ "show all" ∷ "load more" ∷ "next"
    ∷ "previous" ∷ "filter" ∷ "sort" ∷ "sign in" ∷ "log in" ∷ "register" ∷ "français" ∷ "deutsch"
    ∷ "biljett" ∷ "biljetter" ∷ "köp biljett" ∷ "entré" ∷ "öppettider" ∷ "kontakt" ∷ "tidigare"
    ∷ "past exhibition" ∷ "previous exhibition" ∷ "archive" ∷ "arkiv" ∷ "archiv" ∷ "sarchiv"
    ∷ "team " ∷ "unser team" ∷ "mitarbeiter" ∷ "staff" ∷ "medarbetare" ∷ "personal" ∷ "vergangene"
    ∷ "vroegere" ∷ "mostre passate" ∷ "exposiciones anteriores" ∷ "expositions passées" ∷ "aiemmat"
    ∷ "tulevat" ∷ "upcoming exhibition" ∷ "kommande" ∷ "kommende" ∷ "à venir" ∷ "proximas"
    ∷ "próximas" ∷ "prossime" ∷ []

abbrev pub view_segments : List String
view_segments =
    "list" ∷ "lista" ∷ "liste" ∷ "listing" ∷ "page" ∷ "sida" ∷ "seite" ∷ "pagina" ∷ "paged"
    ∷ "month" ∷ "week" ∷ "day" ∷ "today" ∷ "upcoming" ∷ "past" ∷ "archive" ∷ "all" ∷ "calendar"
    ∷ "kalender" ∷ "grid" ∷ "map" ∷ "photo" ∷ "elenco" ∷ "liste-view" ∷ "agenda" ∷ []

abbrev pub container_segments : List String
container_segments =
    "event" ∷ "events" ∷ "evenemang" ∷ "eventi" ∷ "veranstaltungen" ∷ "evenementen" ∷ "evenements"
    ∷ "exhibition" ∷ "exhibitions" ∷ "utstallningar" ∷ "ausstellungen" ∷ "mostre" ∷ "expositions"
    ∷ "whats-on" ∷ "what-s-on" ∷ "programme" ∷ "program" ∷ "programs" ∷ "programmes" ∷ "kalendarium"
    ∷ "permanent" ∷ "permanent-exhibitions" ∷ "permanent-exhibition" ∷ "dauerausstellung"
    ∷ "fasta-utstallningar" ∷ "basutstallningar" ∷ "vaste-collectie" ∷ []

abbrev pub calls_to_action : List String
calls_to_action =
    "find out more" ∷ "read more" ∷ "learn more" ∷ "see more" ∷ "more info" ∷ "more information"
    ∷ "discover" ∷ "explore" ∷ "view" ∷ "details" ∷ "en savoir plus" ∷ "découvrir" ∷ "decouvrir"
    ∷ "plus d'infos" ∷ "mehr erfahren" ∷ "weiterlesen" ∷ "meer info" ∷ "lees meer" ∷ "saber más"
    ∷ "scopri" ∷ "ver más" ∷ "läs mer" ∷ []

abbrev pub non_exhibition_types : List String
non_exhibition_types =
    "guided tour" ∷ "guided visit" ∷ "workshop" ∷ "concert" ∷ "lecture" ∷ "screening" ∷ "conference"
    ∷ "performance" ∷ "reading" ∷ "masterclass" ∷ "symposium" ∷ "seminar" ∷ "webinar" ∷ "course"
    ∷ "family activity" ∷ "introduction to the exhibition" ∷ "introduktion till utställningen"
    ∷ "curator's tour" ∷ "curator tour" ∷ "artist talk" ∷ "gallery talk"
    ∷ "einführung in die ausstellung" ∷ "visite commentée" ∷ "visite guidée" ∷ "atelier"
    ∷ "rencontre" ∷ "projection" ∷ "spectacle" ∷ "führung" ∷ "vortrag" ∷ "werkstatt" ∷ "rondleiding"
    ∷ "lezing" ∷ []

abbrev pub link_affordances : List String
link_affordances =
    "gå till sidan " ∷ "ga till sidan " ∷ "gå till " ∷ "läs om " ∷ "las om " ∷ "go to page "
    ∷ "go to " ∷ "read about " ∷ "read more about " ∷ "more about " ∷ "link to " ∷ "navigate to "
    ∷ "visit page " ∷ "zur seite " ∷ "mehr über " ∷ "mehr ueber " ∷ "aller à la page "
    ∷ "en savoir plus sur " ∷ "ga naar " ∷ "lees over " ∷ "siirry sivulle " ∷ "gå til siden " ∷ []

abbrev pub type_labels : List String
type_labels =
    "Youth exhibition" ∷ "Exhibition" ∷ "Ausstellung" ∷ "Exposition" ∷ "Mostra" ∷ "Tentoonstelling"
    ∷ "Display" ∷ "Event" ∷ "Teens" ∷ []

abbrev pub permanence_adjectives : List String
permanence_adjectives =
    "permanente" ∷ "permanenta" ∷ "permanentes" ∷ "permanenti" ∷ "permanent" ∷ "dauerhaft" ∷ "stała"
    ∷ "stálá" ∷ []

abbrev pub skipped_elements : List String
skipped_elements = "script" ∷ "style" ∷ "noscript" ∷ "template" ∷ "svg" ∷ "head" ∷ []

-- The tails that cleanTitle cuts.
abbrev pub title_tails : List String
title_tails =
    " Until " ∷ " From " ∷ " Now on" ∷ " Nu te zien" ∷ " Verwacht" ∷ " FREE" ∷ ": Plan your visit"
    ∷ " Plan your visit" ∷ " Book now" ∷ " Book tickets" ∷ []
